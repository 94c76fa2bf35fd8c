-- ===== src/Tests/StoreRuns.antt =====
-- Runs of src/store.cpp on a database that refuses once it has run out of room.
use wirelab_experiments.Common.{
  refl, Text, text_eq, if◌then◌else◌, ℕ, zero, suc, ◌≤◌, ◌≡◌, ◌⊎◌, ◌↔◌, false, [], ◌∷◌, codes,
  returned, thrown, arith, Outcome,
}
use wirelab_experiments.Common.Int.{ℤ, pos, negsuc, ◌<ℤ◌}
use wirelab_experiments.Network.Outside.{Exception, runtime_error}
use wirelab_experiments.Store.{sum_samples, Database, week, valid_interval, invalid_range}
use wirelab_experiments.Store.Range.{distance, invalid_range-false_iff}
use wirelab_experiments.Server.Routes.History.{Query, query_integer, history_request}
use wirelab_experiments.Server.Routes.History.Range.{history_request-wraps}

abbrev use_room : ℕ → Outcome Exception (Unit {0}) × ℕ
use_room zero = (thrown (runtime_error (codes "full")), 0)
use_room (suc n) = (returned tt, n)

-- The world is the room that is left.
abbrev small_database : Database
small_database = record {
  World = ℕ;
  execute = λ s w. use_room w;
  setting = λ key w. (returned [], w);
  sums = λ interval from to w. (returned [], w);
  flows = λ w. (returned [], w);
}

abbrev minute : ℕ
minute = 60

invalid_range-false_iff_example : (invalid_range (pos 1000) (pos 4600) minute ≡ false) ↔ (
    ((minute ≡ 60) ⊎ (minute ≡ 300) ⊎ (minute ≡ 3600))
    × (pos 1000 <ℤ pos 4600)
    × (distance (pos 1000) (pos 4600) ≤ week))
invalid_range-false_iff_example = invalid_range-false_iff (pos 1000) (pos 4600) minute (omega arith)

-- Reads the least number of 64 bits, and takes any other text for the greatest.
unfoldable far_stoll : Text → Outcome Exception (ℤ × ℕ)
far_stoll value =
    if text_eq value (codes "-9223372036854775808")
    then returned (negsuc 9_223_372_036_854_775_807, 20)
    else returned (pos 9_223_372_036_854_775_807, 19)

abbrev far_query : Query
far_query = record {
  interval = [];
  from = codes "-9223372036854775808";
  to = codes "9223372036854775807";
  hour_ago = pos 1000;
  next_second = pos 4601;
}

history_request-wraps_example :
    (history_request far_stoll small_database far_query 5).log
    ≡ sum_samples 60 (negsuc 9_223_372_036_854_775_807) (pos 9_223_372_036_854_775_807) ∷ []
unfolding query_integer far_stoll text_eq valid_interval
history_request-wraps_example =
    history_request-wraps far_stoll small_database far_query 60 (negsuc 9_223_372_036_854_775_807)
      (pos 9_223_372_036_854_775_807) 5 refl refl refl refl (omega arith) (omega arith)
      (omega arith) (omega arith)
