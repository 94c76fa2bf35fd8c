-- ===== src/Server/Sampling/Totals.antt =====
-- The counters that `sample` of src/server.cpp stores, over any number of samples.
use wirelab_experiments.Common.{
  ℕ, ◌+◌, ◌%◌, ◌^◌, ◌<◌, ◌≡◌, refl, Bool, true, false, List, [], ◌∷◌, some, if◌then◌else◌, arith,
  All,
}
use wirelab_experiments.Engine.{Engine}
use wirelab_experiments.Server.Sampling.{
  Runtime, Occasion, sub_word, is_due, publish, gather, sample, sample_at,
}

-- A call of `sample`, with the engine as the worker has left it by then.
pub record Visit : Type 0 where
  pub engine : Engine
  pub occasion : Occasion

abbrev pub arrive : Visit → Runtime → Runtime
arrive v s = record s { engine = some v.engine }

pub sample_all : List Visit → Runtime → Runtime
sample_all [] s = s
sample_all (v ∷ vs) s = sample_all vs (sample_at v.occasion (arrive v s))

-- The packets and bytes that one call stores.
abbrev pub stored_packets : Visit → Runtime → ℕ
stored_packets v s =
    if is_due v.occasion.force v.occasion.now s
    then sub_word v.occasion.counters.packets s.previous_packets
    else 0

abbrev pub stored_bytes : Visit → Runtime → ℕ
stored_bytes v s =
    if is_due v.occasion.force v.occasion.now s
    then sub_word v.occasion.counters.wire_bytes s.previous_bytes
    else 0

pub all_packets : List Visit → Runtime → ℕ
all_packets [] s = 0
all_packets (v ∷ vs) s = stored_packets v s + all_packets vs (sample_at v.occasion (arrive v s))

pub all_bytes : List Visit → Runtime → ℕ
all_bytes [] s = 0
all_bytes (v ∷ vs) s = stored_bytes v s + all_bytes vs (sample_at v.occasion (arrive v s))

-- The counters are words.
abbrev pub HasWords : Visit → Type 0
HasWords v = (v.occasion.counters.packets < 2 ^ 64) × (v.occasion.counters.wire_bytes < 2 ^ 64)

pub record Previous (s : Runtime) : Type 0 where
  pub packets : s.previous_packets < 2 ^ 64
  pub bytes : s.previous_bytes < 2 ^ 64

sample_at-previous :
    (v : Visit) (s : Runtime)
    → let s' = sample_at v.occasion (arrive v s) in
      (s'.previous_packets ≡ (
        if is_due v.occasion.force v.occasion.now s
        then v.occasion.counters.packets
        else s.previous_packets))
      × (s'.previous_bytes ≡ (
          if is_due v.occasion.force v.occasion.now s
          then v.occasion.counters.wire_bytes
          else s.previous_bytes))
unfolding sample_at sample publish gather
sample_at-previous v s = ground arith

one_sample :
    (a b p q : ℕ) (due : Bool)
    → a < 2 ^ 64
    → b < 2 ^ 64
    → q ≡ (if due then a else b)
    → p ≡ (if due then sub_word a b else 0)
    → ((p + b) % 2 ^ 64 ≡ q) × (q < 2 ^ 64)
one_sample a b p q true h k e f = omega arith
one_sample a b p q false h k e f = omega arith

-- Over any number of calls of `sample`, due or not, whatever the engine did in between: the packets
-- that the calls hand to the store, added to the counter before the first, are the counter of the
-- last sample that was due, modulo 2 ^ 64; and the same holds of the bytes.
pub sample_all-totals :
    (vs : List Visit) (s : Runtime)
    → All HasWords vs
    → Previous s
    → ((all_packets vs s + s.previous_packets) % 2 ^ 64 ≡ (sample_all vs s).previous_packets)
      × ((all_bytes vs s + s.previous_bytes) % 2 ^ 64 ≡ (sample_all vs s).previous_bytes)
unfolding all_packets all_bytes sample_all
sample_all-totals [] s w p = omega (arith, p.packets, p.bytes)
sample_all-totals (v ∷ vs) s w p =
    let e = sample_at-previous v s in
    let due = is_due v.occasion.force v.occasion.now s in
    let s' = sample_at v.occasion (arrive v s) in
    let a =
      one_sample v.occasion.counters.packets s.previous_packets _ _ due w.0.0 p.packets e.0 refl in
    let b =
      one_sample v.occasion.counters.wire_bytes s.previous_bytes _ _ due w.0.1 p.bytes e.1 refl in
    let rest = sample_all-totals vs s' w.1 (record { packets = a.1; bytes = b.1 }) in
    (omega (arith, a.0, rest.0), omega (arith, b.0, rest.1))
