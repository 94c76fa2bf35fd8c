-- ===== src/Engine/Drain.antt =====
-- `drain` of src/engine.cpp, against `take` and `drop`.
use wirelab_experiments.Common.{
  ℕ, suc, zero, min, ◌≡◌, List, [], ◌∷◌, ◌++◌, length, take, drop, append-nil, append_assoc,
}
use native.Mathlib.Numerals.{unary_clauses}
use wirelab_experiments.Packet.{PacketMetadata}
use wirelab_experiments.Engine.{Engine, drain_loop, drain}

drain_loop_lem :
    (n : ℕ) (result queue : List PacketMetadata)
    → drain_loop n result queue ≡ (result ++ take n queue, drop n queue)
unfolding drain_loop
drain_loop_lem zero result queue = rw (append-nil result)
drain_loop_lem (suc n) result [] = rw (append-nil result)
drain_loop_lem (suc n) result (p ∷ queue) =
    rw (drain_loop_lem n (result ++ p ∷ []) queue, append_assoc)

take-min : (n : ℕ) (xs : List PacketMetadata) → take (min n (length xs)) xs ≡ take n xs
take-min zero xs = simp unary_clauses
take-min (suc n) [] = simp unary_clauses
take-min (suc n) (x ∷ xs) = simp (unary_clauses, take-min n xs)

drop-min : (n : ℕ) (xs : List PacketMetadata) → drop (min n (length xs)) xs ≡ drop n xs
drop-min zero xs = simp unary_clauses
drop-min (suc n) [] = simp unary_clauses
drop-min (suc n) (x ∷ xs) = simp (unary_clauses, drop-min n xs)

-- The caller gets the oldest `limit` records, or all of them if there are fewer, in order; the
-- others stay queued in order, and nothing else of the engine changes.
pub drain_lem :
    (limit : ℕ) (e : Engine)
    → drain limit e ≡ (take limit e.queue, record e { queue = drop limit e.queue })
unfolding drain
drain_lem limit e = rw (
  drain_loop_lem (min limit (length e.queue)) [] e.queue,
  take-min limit e.queue,
  drop-min limit e.queue,
)
