-- ===== src/Server/Startup.antt =====
-- `run_appliance` of src/server.cpp: what it checks before the server starts, and the handler that it
-- registers. What the files and locks are is an argument.
pub mod Guarded
use wirelab_experiments.Common.{
  ℕ, ◌+◌, ◌*◌, ◌^◌, bit_and, Bool, true, false, not, ◌&&◌, ◌||◌, List, [], ◌∷◌, ◌++◌, Option, none,
  some, Text, codes, length, ltb, ◌==◌, if◌then◌else◌, Outcome, returned, thrown,
}
use wirelab_experiments.Network.Outside.{Exception, runtime_error}
use wirelab_experiments.Server.Token.{Request, admitted}
use wirelab_experiments.Server.Queue.{Job, Reply, error, Server, submit}

-- What `stat` says of the token file, as `st_mode`, or none where it fails; the first line of that
-- file; whether the lock file could be opened and locked; and whether the dashboard is there.
pub record Host : Type 0 where
  pub status : Option ℕ
  pub first_line : Text
  pub lock_opened : Bool
  pub locked : Bool
  pub has_index : Bool

-- `S_ISREG(mode) && (mode & 0077) == 0`, with the masks 0170000 and 0077.
unfoldable pub private_file : ℕ → Bool
private_file mode = bit_and mode 61_440 == 32_768 && bit_and mode 63 == 0

unfoldable pub is_private : Option ℕ → Bool
unfolding private_file
is_private none = false
is_private (some mode) = private_file mode

-- The message has a dash of three bytes.
abbrev pub token_message : Text
token_message = codes "Token must be 32" ++ (0xe2 ∷ 0x80 ∷ 0x93 ∷ codes "256 characters")

-- The checks; with them passed the token is what the server is run with.
unfoldable pub run_appliance : Host → Outcome Exception Text
unfolding is_private
run_appliance host =
    if not (is_private host.status)
    then thrown (runtime_error (codes "Token file must exist and have mode 0600 (or 0400)"))
    else if ltb (length host.first_line) 32 || ltb 256 (length host.first_line)
    then thrown (runtime_error token_message)
    else if not host.lock_opened
    then thrown (runtime_error (codes "Cannot open database lock"))
    else if not host.locked
    then thrown (runtime_error (codes "Another appliance instance owns this database"))
    else if not host.has_index
    then thrown (runtime_error (codes "Missing dashboard; set --web-root"))
    else returned host.first_line

abbrev pub unauthorized : {V : Type 0} → ℕ → Reply V
unauthorized client = record { client = client; status = 401; body = error (codes "Unauthorized") }

-- The handler of a request that became `job`.
unfoldable pub handle_request : {S V : Type 0} → Text → Request → Job S V → Server S V → Server S V
handle_request token r job s =
    if not (admitted token r)
    then record s { replies = s.replies ++ unauthorized job.client ∷ [] }
    else submit job s
