-- ===== src/Store/Tables/Values.antt =====
-- `put` and `get`, and `sample`, of src/store.cpp on the tables.
use wirelab_experiments.Common.{
  ◌≡◌, refl, ap, sym, ◌∙◌, List, [], ◌∷◌, Option, none, some, Text, ℕ, text_eq, text_eq_iff,
  Outcome, returned, arith, if◌then◌else◌,
}
use wirelab_experiments.Common.Int.{ℤ, pos, ltb_ℤ, signed}
use wirelab_experiments.Common.Int.Sums.{◌+ℤ◌, eq_ℤ, eq_ℤ_iff}
use wirelab_experiments.Network.Outside.{Exception}
use wirelab_experiments.Store.{
  Statement, put_setting, get_setting, week, sub_int64, execute, put, get, parsed, sample,
}
use wirelab_experiments.Store.Keyed.{lookup, upsert, changed, lookup-upsert_any}
use wirelab_experiments.Store.Tables.{
  Sample, Refusal, Sqlite, Connection, upsert_sample, delete_before,
}
use wirelab_experiments.Store.Tables.Statements.{
  effect, finish_statement, run_statement, run_query, select_setting, database,
}

lookup-delete_before :
    (ts limit : ℤ) (rows : List (ℤ × Sample))
    → lookup eq_ℤ ts (delete_before limit rows)
      ≡ (if ltb_ℤ ts limit then none else lookup eq_ℤ ts rows)
unfolding lookup delete_before
lookup-delete_before ts limit [] = ground arith
lookup-delete_before ts limit ((t, s) ∷ rows) =
    ground (arith, lookup-delete_before ts limit rows, (eq_ℤ_iff t ts).0)

-- The value of a setting that is stored.
stored_value : (value : Text) (o : Option Text) → changed text_eq value (λ _. value) o ≡ value
stored_value value none = refl
stored_value value (some old) = refl

-- A sample added to what is there for its second.
abbrev pub with_sample : ℤ → ℤ → Text → Option Sample → Sample
with_sample packets bytes details none = record {
  packets = packets;
  bytes = bytes;
  details = details;
}
with_sample packets bytes details (some s) = record {
  packets = s.packets +ℤ packets;
  bytes = s.bytes +ℤ bytes;
  details = details;
}

-- What is at each second of the table behind `sample`: what is older than a week before `ts` is
-- gone, at `ts` the packets and bytes were added to what was there, and the rest is as it was.
abbrev pub Sampled : ℤ → ℕ → ℕ → Text → List (ℤ × Sample) → List (ℤ × Sample) → Type 0
Sampled ts packets bytes details old new =
    (t : ℤ)
    → lookup eq_ℤ t new ≡ (
        if ltb_ℤ t (sub_int64 ts (pos week))
        then none
        else if eq_ℤ ts t
        then some (with_sample (signed packets) (signed bytes) details (lookup eq_ℤ t old))
        else lookup eq_ℤ t old)

changed_sample :
    (packets bytes : ℤ) (details : Text) (o : Option Sample)
    → changed eq_ℤ
        (record { packets = packets; bytes = bytes; details = details })
        (λ s. record {
          packets = s.packets +ℤ packets;
          bytes = s.bytes +ℤ bytes;
          details = details;
        })
        o
      ≡ with_sample packets bytes details o
changed_sample packets bytes details none = refl
changed_sample packets bytes details (some s) = refl

upsert-Sampled :
    (ts : ℤ) (packets bytes : ℕ) (details : Text) (rows : List (ℤ × Sample))
    → Sampled ts packets bytes details rows (
        delete_before
          (sub_int64 ts (pos week))
          (upsert_sample ts (signed packets) (signed bytes) details rows))
unfolding upsert_sample
upsert-Sampled ts packets bytes details rows t =
    rw
      (
        lookup-delete_before t (sub_int64 ts (pos week)),
        lookup-upsert_any eq_ℤ ts t
            (record { packets = signed packets; bytes = signed bytes; details = details }) _ rows
            eq_ℤ_iff,
        changed_sample (signed packets) (signed bytes) details (lookup eq_ℤ t rows),
      )
      refl

module _ (sqlite : Sqlite) where
  -- A change that returned.
  returned_statement :
      (s : Statement) (c : Connection sqlite.Host) (x : Option Refusal)
      → (finish_statement sqlite s c x).0 ≡ returned tt
      → (finish_statement sqlite s c x).1 ≡ effect sqlite s c
  unfolding finish_statement
  returned_statement s c none h = refl
  returned_statement s c (some x) h = cc

  put-tables :
      (key value : Text) (c : Connection sqlite.Host)
      → (put (database sqlite) key value c).outcome ≡ returned tt
      → (put (database sqlite) key value c).state.tables ≡ (
          let t = c.tables in
          record t { settings = upsert text_eq key value (λ _. value) t.settings })
  unfolding put execute run_statement effect
  put-tables key value c h = ap (λ d. d.tables) (returned_statement (put_setting key value) _ _ h)

  module _ {V : Type 0} (parse_json : Text → Outcome Exception V) (null : V) where
    abbrev read_text : Option Text → Outcome Exception V
    read_text none = returned null
    read_text (some text) = parse_json text

    read_changed :
        (key key' value : Text) (o : Option Text)
        → read_text (if text_eq key key' then some (changed text_eq value (λ _. value) o) else o)
          ≡ (if text_eq key key' then parse_json value else read_text o)
    read_changed key key' value o = ground (arith, stored_value value o)

    get-setting :
        (key : Text) (c : Connection sqlite.Host)
        → (sqlite.refuses (get_setting key) c.host).0 ≡ none
        → (get (database sqlite) parse_json null key c).outcome
          ≡ read_text (lookup text_eq key c.tables.settings)
    unfolding get parsed run_query select_setting
    get-setting key c h = ground arith

    -- What `put` stored under a key, if it returned, is what `get` then reads under that key, as
    -- `parse_json` takes it; under any other key `get` reads what it read before.
    pub get-put :
        (key key' value : Text) (c : Connection sqlite.Host)
        → (put (database sqlite) key value c).outcome ≡ returned tt
        → let c' = (put (database sqlite) key value c).state in
          (sqlite.refuses (get_setting key') c'.host).0 ≡ none
          → (sqlite.refuses (get_setting key') c.host).0 ≡ none
          → (get (database sqlite) parse_json null key' c').outcome ≡ (
              if text_eq key key'
              then parse_json value
              else (get (database sqlite) parse_json null key' c).outcome)
    get-put key key' value c h q p =
        get-setting key' (put (database sqlite) key value c).state q
        ∙ ap (λ t. read_text (lookup text_eq key' t.settings)) (put-tables key value c h)
        ∙ ap read_text
            (lookup-upsert_any text_eq key key' value (λ _. value) c.tables.settings text_eq_iff)
        ∙ read_changed key key' value _
        ∙ ap (λ o. if text_eq key key' then parse_json value else o) (sym (get-setting key' c p))

  pub sample-tables :
      (ts : ℤ) (packets bytes : ℕ) (details : Text) (c : Connection sqlite.Host)
      → (sample (database sqlite) ts packets bytes details c).outcome ≡ returned tt
      → (sample (database sqlite) ts packets bytes details c).state.tables ≡ record (c.tables) {
        samples =
            delete_before
              (sub_int64 ts (pos week))
              (upsert_sample ts (signed packets) (signed bytes) details c.tables.samples);
      }
  unfolding sample execute run_statement finish_statement effect
  sample-tables ts packets bytes details c h = ground arith

  -- If `sample` returns, the settings and the flows are as they were, and of the samples those older
  -- than a week before `ts` are gone, at `ts` the packets and bytes are added to those that were there
  -- and the details replaced, and all others are as they were.
  pub sample-Sampled :
      (ts : ℤ) (packets bytes : ℕ) (details : Text) (c : Connection sqlite.Host)
      → (sample (database sqlite) ts packets bytes details c).outcome ≡ returned tt
      → let t = (sample (database sqlite) ts packets bytes details c).state.tables in
        (t.settings ≡ c.tables.settings)
        × (t.flows ≡ c.tables.flows)
        × Sampled ts packets bytes details c.tables.samples t.samples
  sample-Sampled ts packets bytes details c h =
      let e = sample-tables ts packets bytes details c h in
      (
        ap (λ t. t.settings) e,
        ap (λ t. t.flows) e,
        λ t.
            ap (λ u. lookup eq_ℤ t u.samples) e
            ∙ upsert-Sampled ts packets bytes details c.tables.samples t,
      )
