-- ===== src/Server/Startup/Guarded.antt =====
-- What guards the control queue of src/server.cpp, from the token file to the handler.
use wirelab_experiments.Common.{
  ℕ, ◌/◌, ◌%◌, ◌^◌, ◌≤◌, ◌≡◌, ◌≢◌, refl, bit_and, true, ◌++◌, Option, none, some, Text, codes,
  length, returned, arith, Bool-cases, inl, inr,
}
use wirelab_experiments.Common.Bits.{bit_and-low, bit_and-high}
use wirelab_experiments.Server.Token.{Request, admitted, admitted_iff, IsSameOrigin}
use wirelab_experiments.Server.Queue.{Job, Server}
use wirelab_experiments.Server.Startup.{
  Host, private_file, is_private, run_appliance, handle_request,
}

-- A regular file that only its owner has any permission on.
pub record IsPrivate (mode : ℕ) : Type 0 where
  pub regular : mode / 2 ^ 12 % 16 ≡ 8
  pub owner_only : mode % 2 ^ 6 ≡ 0

private_file-IsPrivate : (mode : ℕ) → private_file mode ≡ true → IsPrivate mode
unfolding private_file
private_file-IsPrivate mode h =
    let e : (bit_and mode 61_440 ≡ 32_768) × (bit_and mode 63 ≡ 0) = ground arith in
    record {
      regular = omega (arith, e.0, bit_and-high 12 15 mode, bit_and-low 4 (mode / 2 ^ 12));
      owner_only = omega (arith, e.1, bit_and-low 6 mode);
    }

is_private-file :
    (status : Option ℕ)
    → is_private status ≡ true
    → (mode : ℕ) × (status ≡ some mode) × IsPrivate mode
unfolding is_private
is_private-file none h = cc
is_private-file (some mode) h = (mode, refl, private_file-IsPrivate mode h)

run_appliance-returned :
    (host : Host) (token : Text)
    → run_appliance host ≡ returned token
    → (is_private host.status ≡ true)
      × (token ≡ host.first_line)
      × (32 ≤ length token)
      × (length token ≤ 256)
      × (host.locked ≡ true)
unfolding run_appliance
run_appliance-returned host token h = ground arith

handle_request-admitted :
    {S V : Type 0} (token : Text) (r : Request) (job : Job S V) (s : Server S V)
    → (handle_request token r job s).tasks ≢ s.tasks
    → admitted token r ≡ true
unfolding handle_request
handle_request-admitted token r job s h = elim (Bool-cases (admitted token r)) [
  | inl e ↦ e
  | inr e ↦ absurd (h (ground arith))
]

-- When the appliance runs, then its token is the first line, of 32 to 256 bytes, of a regular file
-- that only its owner has permissions on, and it holds the lock of its database; and a request that
-- gets anything into the control queue has that very token, and an empty origin or that of its host.
pub run_appliance-guards :
    {S V : Type 0} (host : Host) (token : Text) (r : Request) (job : Job S V) (s : Server S V)
    → run_appliance host ≡ returned token
    → (handle_request token r job s).tasks ≢ s.tasks
    → ((mode : ℕ) × (host.status ≡ some mode) × IsPrivate mode)
      × ((token ≡ host.first_line)
          × (32 ≤ length token)
          × (length token ≤ 256)
          × (host.locked ≡ true))
      × IsSameOrigin r
      × (r.authorization ≡ codes "Bearer " ++ token)
run_appliance-guards host token r job s h g =
    let checks = run_appliance-returned host token h in
    let asked = (admitted_iff token r).0 (handle_request-admitted token r job s g) in
    (
      is_private-file host.status checks.0,
      (checks.1, checks.2, checks.3, checks.4),
      asked.0,
      asked.1,
    )
