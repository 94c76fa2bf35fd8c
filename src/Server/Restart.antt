-- ===== src/Server/Restart.antt =====
-- The store of src/store.cpp behind the network controller of src/network.cpp: which state the next
-- start reads where `apply` was cut off. The texts that `json_text` makes of a state, and what
-- `parse_json` reads of them, are parameters.
use wirelab_experiments.Common.{
  Bool, true, false, List, [], ◌∷◌, ◌++◌, Option, none, some, Text, codes, text_eq, text_eq_iff,
  ◌≡◌, ◌⊎◌, inl, inr, refl, ap, ◌∙◌, if◌then◌else◌, append_assoc,
}
use wirelab_experiments.Inet.{Inet}
use wirelab_experiments.Config.{NetworkConfig}
use wirelab_experiments.Network.Outside.{
  NetState, Kernel, Controller, Event, sends, writes, runs, puts,
}
use wirelab_experiments.Network.{apply}
use wirelab_experiments.Network.Crash.Recovers.{AfterCrash, apply-AfterCrash}
use wirelab_experiments.Store.{put_setting, execute, put}
use wirelab_experiments.Store.Keyed.{lookup, changed, lookup-upsert}
use wirelab_experiments.Store.Tables.{Refusal, Sqlite, Connection}
use wirelab_experiments.Store.Tables.Statements.{
  effect, undone, partial, finish_statement, run_statement, database,
}

abbrev pub network_key : Text
network_key = codes "network"

module _ (sqlite : Sqlite) (state_text : NetState → Text)
    (text_state : Text → Option NetState) where
  -- What the store is asked for by some of the changes, in order; each may be refused.
  unfoldable pub replay : List Event → Connection sqlite.Host → Connection sqlite.Host
  replay [] c = c
  replay (puts s ∷ es) c = replay es (put (database sqlite) network_key (state_text s) c).state
  replay (sends message ∷ es) c = replay es c
  replay (writes path value ∷ es) c = replay es c
  replay (runs argv input ∷ es) c = replay es c

  abbrev read_state : Option Text → Option NetState
  read_state none = none
  read_state (some text) = text_state text

  -- `store.get("network")` of the next start.
  unfoldable pub stored_state : Connection sqlite.Host → Option NetState
  stored_state c = read_state (lookup text_eq network_key c.tables.settings)

  -- A call of `put` stored the state, or left the stored one.
  abbrev Puts : NetState → Connection sqlite.Host → Connection sqlite.Host → Type 0
  Puts s c c' =
      (c'.begun ≡ none) × ((stored_state c' ≡ some s) ⊎ (stored_state c' ≡ stored_state c))

  refused_put :
      (key value : Text) (s : NetState) (c : Connection sqlite.Host) (ends : Bool)
      → c.begun ≡ none
      → Puts s c (if ends then undone sqlite c else partial sqlite (put_setting key value) c)
  unfolding partial undone stored_state
  refused_put key value s c true h = rw (h, undone) (h, inr refl)
  refused_put key value s c false h = (h, inr refl)

  written :
      (text : Text) (o : Option Text)
      → read_state (some (changed text_eq text (λ _. text) o)) ≡ text_state text
  written text none = refl
  written text (some old) = refl

  stored-put :
      (s : NetState) (c : Connection sqlite.Host) (x : Option Refusal)
      → ((s : NetState) → text_state (state_text s) ≡ some s)
      → c.begun ≡ none
      → Puts s c (finish_statement sqlite (put_setting network_key (state_text s)) c x).1
  unfolding finish_statement effect stored_state
  stored-put s c none law h =
      let text = state_text s in
      (
        h,
        inl (
            ap read_state
              (lookup-upsert text_eq network_key text (λ _. text) c.tables.settings text_eq_iff)
            ∙ written text (lookup text_eq network_key c.tables.settings)
            ∙ law s),
      )
  stored-put s c (some x) law h = refused_put network_key (state_text s) s c x.ends_transaction h

  put-Puts :
      (s : NetState) (c : Connection sqlite.Host)
      → ((s : NetState) → text_state (state_text s) ≡ some s)
      → c.begun ≡ none
      → Puts s c (put (database sqlite) network_key (state_text s) c).state
  unfolding put execute run_statement stored_state
  put-Puts s c law h = stored-put s _ _ law h

  -- Where the state comes from that is stored behind some changes.
  data Kept (c : Connection sqlite.Host) (es : List Event) (o : Option NetState) : Type 0 where
    before : o ≡ stored_state c → Kept c es o
    within :
        (done : List Event) (s : NetState) (later : List Event)
        → es ≡ done ++ puts s ∷ later
        → o ≡ some s
        → Kept c es o

  Kept-cons :
      (c : Connection sqlite.Host) (e : Event) (es : List Event) (o : Option NetState)
      → Kept c es o
      → Kept c (e ∷ es) o
  Kept-cons c e es o (before h) = before h
  Kept-cons c e es o (within done s later h k) = within (e ∷ done) s later (ap (◌∷◌ e) h) k

  Kept-puts :
      (c c' : Connection sqlite.Host) (s : NetState) (es : List Event) (o : Option NetState)
      → (stored_state c' ≡ some s) ⊎ (stored_state c' ≡ stored_state c)
      → Kept c' es o
      → Kept c (puts s ∷ es) o
  Kept-puts c c' s es o (inl h) (before k) = within [] s es refl (k ∙ h)
  Kept-puts c c' s es o (inr h) (before k) = before (k ∙ h)
  Kept-puts c c' s es o r (within done t later h k) =
      within (puts s ∷ done) t later (ap (◌∷◌ (puts s)) h) k

  replay-Kept :
      (es : List Event) (c : Connection sqlite.Host)
      → ((s : NetState) → text_state (state_text s) ≡ some s)
      → c.begun ≡ none
      → Kept c es (stored_state (replay es c))
  unfolding replay
  replay-Kept [] c law h = before refl
  replay-Kept (puts s ∷ es) c law h =
      let p = put-Puts s c law h in Kept-puts c _ s es _ p.1 (replay-Kept es _ law p.0)
  replay-Kept (sends message ∷ es) c law h = Kept-cons c _ es _ (replay-Kept es c law h)
  replay-Kept (writes path value ∷ es) c law h = Kept-cons c _ es _ (replay-Kept es c law h)
  replay-Kept (runs argv input ∷ es) c law h = Kept-cons c _ es _ (replay-Kept es c law h)

  -- What the next start reads where `apply` was cut off in its log `log`.
  pub data Restart (kernel : Kernel) (inet : Inet) (config : NetworkConfig) (log : List Event)
      (old new : Option NetState) : Type 0 where
    unchanged : new ≡ old → Restart kernel inet config log old new
    journal :
        (s : NetState) (later : List Event)
        → new ≡ some s
        → AfterCrash kernel inet config s later log
        → Restart kernel inet config log old new

  Kept-Restart :
      (kernel : Kernel) (inet : Inet) (config : NetworkConfig) (n : Controller kernel.World)
      (done rest : List Event) (c : Connection sqlite.Host) (new : Option NetState)
      → (apply kernel inet config n).log ≡ done ++ rest
      → Kept c done new
      → Restart kernel inet config (apply kernel inet config n).log (stored_state c) new
  Kept-Restart kernel inet config n done rest c new h (before k) = unchanged k
  Kept-Restart kernel inet config n done rest c new h (within front s later e k) =
      journal s (later ++ rest) k (
        apply-AfterCrash kernel inet config n front s (later ++ rest)
          (h ∙ ap (λ es. es ++ rest) e ∙ append_assoc front (puts s ∷ later) rest))

  -- Wherever `apply` is cut off, and whichever of its calls of `put` SQLite refuses: the next start
  -- reads from the store what was there before `apply`, or a state that is inactive and the last
  -- thing that `apply` asked for, or one from which the start undoes the configuration by the journal
  -- at the head of the log of `apply`.
  pub replay-Restart :
      (kernel : Kernel) (inet : Inet) (config : NetworkConfig) (n : Controller kernel.World)
      (done rest : List Event) (c : Connection sqlite.Host)
      → ((s : NetState) → text_state (state_text s) ≡ some s)
      → c.begun ≡ none
      → (apply kernel inet config n).log ≡ done ++ rest
      → Restart kernel inet config
          (apply kernel inet config n).log
          (stored_state c)
          (stored_state (replay done c))
  replay-Restart kernel inet config n done rest c law b h =
      Kept-Restart kernel inet config n done rest c _ h (replay-Kept done c law b)
