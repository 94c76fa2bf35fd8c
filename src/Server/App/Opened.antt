-- ===== src/Server/App/Opened.antt =====
-- `start_capture` and the constructor of src/server.cpp.
use wirelab_experiments.Common.{
  ℕ, Bool, true, false, not, [], Option, some, none, Text, codes, length, ◌==◌, ◌≡◌, ◌⊎◌, inl, inr,
  refl, returned, thrown, Outcome, arith, if◌then◌else◌,
}
use wirelab_experiments.Engine.{Engine, EngineError, create, start, snapshot}
use wirelab_experiments.Network.Outside.{Exception, invalid_argument, runtime_error, what}
use wirelab_experiments.Server.Sampling.{
  Runtime, Occasion, Opening, sample, sample_at, publish, gather, valid_capture_name, end_capture,
  install_engine, start_next, start_capture,
}
use wirelab_experiments.Server.App.{saved_name}

-- A capture on `name` that runs.
abbrev pub IsCapturing : Text → Runtime → Type 0
IsCapturing name s =
    (valid_capture_name name ≡ true)
    × (s.capture_interface ≡ name)
    × (s.capture_error ≡ [])
    × ((e : Engine) × (s.engine ≡ some e) × ((snapshot e).running ≡ true))

-- The interface and the error that are shown are as they were.
abbrev pub ShowsSame : Runtime → Runtime → Type 0
ShowsSame s s' = (s'.capture_interface ≡ s.capture_interface) × (s'.capture_error ≡ s.capture_error)

-- How a call of `start_capture` ended.
abbrev pub Started : Text → Runtime → Runtime × Outcome Exception (Unit {0}) → Type 0
Started name s r =
    ((r.1 ≡ returned tt) × IsCapturing name r.0)
    ⊎ ((x : Exception) × (r.1 ≡ thrown x) × ShowsSame s r.0)

end_capture-ShowsSame :
    (halted : Engine) (o : Occasion) (s : Runtime) → ShowsSame s (end_capture halted o s)
unfolding end_capture sample_at sample publish gather
end_capture-ShowsSame halted o s = ground arith

start_next-Started :
    (spawned : Bool) (reason : Text) (put : Outcome Exception (Unit {0})) (name : Text) (now : ℕ)
    (e : Engine) (s s' : Runtime)
    → valid_capture_name name ≡ true
    → e.started ≡ false
    → ShowsSame s s'
    → Started name s (start_next spawned reason put name now e s')
unfolding start_next install_engine start snapshot
start_next-Started true reason (returned u) name now e s s' v f h =
    rw f (inl (refl, (v, refl, refl, (_, refl, refl))))
start_next-Started true reason (thrown x) name now e s s' v f h = rw f (inr (x, refl, h))
start_next-Started false reason put name now e s s' v f h =
    rw f (inr (runtime_error reason, refl, h))

-- The branches behind the test of the name.
open_next-Started :
    (source : Outcome Exception (Unit {0})) (created : Outcome EngineError Engine) (p : Opening)
    (name : Text) (s : Runtime)
    → valid_capture_name name ≡ true
    → ((e : Engine) → created ≡ returned e → e.started ≡ false)
    → Started name s (elim source [
      | thrown x ↦ (s, thrown x)
      | returned u ↦ elim created [
        | thrown x ↦ (
          s,
          thrown (invalid_argument (codes "Capture requires a source and positive queue capacity")),
        )
        | returned e ↦
            start_next p.spawned p.reason p.put name p.now e (end_capture p.halted p.occasion s)
      ]
    ])
open_next-Started (thrown x) created p name s v f = inr (x, refl, (refl, refl))
open_next-Started (returned u) (thrown x) p name s v f = inr (_, refl, (refl, refl))
open_next-Started (returned u) (returned e) p name s v f =
    start_next-Started p.spawned p.reason p.put name p.now e s _ v (f e refl)
      (end_capture-ShowsSame p.halted p.occasion s)

created-fresh : (n : ℕ) (e : Engine) → create true n ≡ returned e → e.started ≡ false
unfolding create
created-fresh n e h = ground arith

checked_name :
    (name : Text) (s : Runtime) (rest : Runtime × Outcome Exception (Unit {0})) (valid : Bool)
    → valid_capture_name name ≡ valid
    → (valid_capture_name name ≡ true → Started name s rest)
    → Started name s (
        if not valid
        then (s, thrown (invalid_argument (codes "Invalid capture interface")))
        else rest)
checked_name name s rest true e h = h e
checked_name name s rest false e h = inr (_, refl, (refl, refl))

-- A call of `start_capture` returns with a capture that runs on the interface, whose name is valid and
-- shown, and no error shown; or it throws, and shows the interface and the error that it showed
-- before.
pub start_capture-Started :
    (name : Text) (p : Opening) (s : Runtime) → Started name s (start_capture name p s)
unfolding start_capture valid_capture_name
start_capture-Started name p s =
    checked_name name s _ (valid_capture_name name) refl
      λ v. open_next-Started p.source (create true 8192) p name s v (created-fresh 8192)

-- What the constructor makes of the interface of the command line and the stored one.
pub data Opened (option : Text) (stored : Option Text) (p : Opening) (s : Runtime)
    : Runtime × Outcome Exception (Unit {0}) → Type 0 where
  asked :
      {r : Runtime × Outcome Exception (Unit {0})}
      → (length option == 0) ≡ false
      → Started option s r
      → Opened option stored p s r
  idle :
      (length option == 0) ≡ true
      → saved_name stored ≡ none
      → Opened option stored p s (s, returned tt)
  resumed :
      {s' : Runtime} (name : Text)
      → (length option == 0) ≡ true
      → saved_name stored ≡ some name
      → (start_capture name p s).1 ≡ returned tt
      → IsCapturing name s'
      → Opened option stored p s (s', returned tt)
  failed :
      {s' : Runtime} (name : Text) (x : Exception)
      → (length option == 0) ≡ true
      → saved_name stored ≡ some name
      → (start_capture name p s).1 ≡ thrown x
      → s'.capture_interface ≡ s.capture_interface
      → s'.capture_error ≡ what x
      → Opened option stored p s (s', returned tt)
