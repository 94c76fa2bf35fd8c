-- ===== src/Network/Lock.antt =====
-- The constructor of `NetworkController` in src/network.cpp: the lock of the network namespace, then
-- the recovery. What `stat`, `open` and `flock` say is an argument.
use wirelab_experiments.Common.{
  Bool, true, false, not, ◌||◌, [], Option, codes, ◌≡◌, ◌⊎◌, inl, inr, refl, arith, if◌then◌else◌,
  Bool-cases,
}
use wirelab_experiments.Inet.{Inet}
use wirelab_experiments.Network.Outside.{
  Exception, runtime_error, NetState, Kernel, Run, throw_if, pure, ◌>>◌,
}
use wirelab_experiments.Network.Netlink.{N}
use wirelab_experiments.Network.{initial, recover}

pub record Namespace : Type 0 where
  pub identified : Bool
  pub opened : Bool
  pub locked : Bool

abbrev pub not_identified : Exception
not_identified = runtime_error (codes "Cannot identify network namespace")

abbrev pub not_owned : Exception
not_owned = runtime_error (codes "Another controller owns this network namespace")

module _ (kernel : Kernel) (inet : Inet) where
  unfoldable pub take_lock : Namespace → N kernel (Unit {0})
  take_lock ns = do
    throw_if (not ns.identified) not_identified
    throw_if (not ns.opened || not ns.locked) not_owned

  unfoldable pub construct :
      Bool → Option NetState → Namespace → kernel.World → Run kernel.World (Unit {0})
  construct enabled stored ns w =
      (do if enabled then take_lock ns else pure tt; recover kernel inet)
        (initial kernel inet enabled stored w)

  -- The namespace is owned.
  abbrev pub IsOwned : Namespace → Type 0
  IsOwned ns = (ns.identified ≡ true) × (ns.opened ≡ true) × (ns.locked ≡ true)

  -- The constructor asks for no change and leaves the stored state as it is; or changes are enabled,
  -- the lock of the network namespace was taken, and it goes on as the recovery does.
  pub construct-IsOwned :
      (enabled : Bool) (stored : Option NetState) (ns : Namespace) (w : kernel.World)
      → let n = initial kernel inet enabled stored w in
        let r = construct enabled stored ns w in
        ((r.log ≡ []) × (r.controller ≡ n))
        ⊎ ((enabled ≡ true) × IsOwned ns × (r ≡ recover kernel inet n))
  unfolding construct take_lock recover
  construct-IsOwned false stored ns w = inl (ground arith)
  construct-IsOwned true stored ns w = elim (Bool-cases ns.identified) [
    | inr i ↦ rw i (inl (refl, refl))
    | inl i ↦ elim (Bool-cases ns.opened) [
      | inr o ↦ rw (i, o) (inl (refl, refl))
      | inl o ↦ elim (Bool-cases ns.locked) [
        | inr l ↦ rw (i, o, l) (inl (refl, refl))
        | inl l ↦ rw (i, o, l) (inr (refl, (refl, refl, refl), refl))
      ]
    ]
  ]
