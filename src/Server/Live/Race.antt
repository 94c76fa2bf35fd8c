-- ===== src/Server/Live/Race.antt =====
-- `handleNewMessage` of src/server.cpp compares the acknowledgement and marks the connection busy in
-- two steps; what happens when the reply to an earlier message comes between them.
use wirelab_experiments.Common.{ℕ, ◌+◌, ◌%◌, ◌^◌, ◌<◌, ◌≡◌, ◌≢◌, refl, true, ◌∷◌, arith}
use wirelab_experiments.Server.Live.{
  compared, resting, Socket, exchange_busy, count_reply, send_reply, clear_busy, exchanges, counts,
  sends, clears, Reach, here, next,
}

module _ (s : Socket) (ack : ℕ) where
  -- The reply ends behind the comparison.
  abbrev replied : Socket
  replied = clear_busy (send_reply true ((s.sequence + 1) % 2 ^ 64) (count_reply s))

  abbrev pub overtaken : Socket
  overtaken = exchange_busy ack replied

  -- While the only job of a connection waits, let another message with the current number be
  -- compared. Then the job's reply can be sent and a second job be taken, for the number that was
  -- acknowledged before that reply, although the connection has moved on to another number.
  pub overtaken-Reach :
      s.handler ≡ compared ack
      → s.replier ≡ resting
      → s.jobs ≡ 1
      → s.sequence ≡ ack
      → ack < 2 ^ 64
      → Reach s overtaken
        × (overtaken.jobs ≡ 1)
        × (overtaken.taken ≡ ack ∷ s.taken)
        × (overtaken.sent ≡ (s.sequence + 1) % 2 ^ 64 ∷ s.sent)
        × (overtaken.sequence ≢ ack)
  unfolding count_reply send_reply clear_busy exchange_busy
  overtaken-Reach c r j q b = (
    next
        (next (next (next here (counts (omega arith) r refl)) (sends true _ refl refl))
          (clears refl refl))
        (exchanges ack c refl),
    omega arith,
    refl,
    refl,
    λ e. absurd (omega arith),
  )
