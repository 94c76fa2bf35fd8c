-- ===== src/Tests/LiveRuns.antt =====
-- Runs of the web socket of src/server.cpp.
use wirelab_experiments.Common.{◌≡◌, ◌≢◌, refl, ◌∷◌, ◌+◌, ◌%◌, ◌^◌, arith}
use wirelab_experiments.Server.Live.{
  Socket, new_socket, compare_ack, exchange_busy, Reach, here, next, compares, exchanges,
}
use wirelab_experiments.Server.Live.Order.{IsOrdered, Reach-new_socket-IsOrdered}
use wirelab_experiments.Server.Live.Race.{overtaken, overtaken-Reach}

-- One message was taken, and another is compared before the reply.
abbrev racing : Socket
racing = compare_ack 0 (exchange_busy 0 (compare_ack 0 new_socket))

racing-Reach : Reach new_socket racing
unfolding compare_ack exchange_busy
racing-Reach =
    next (next (next here (compares 0 refl refl)) (exchanges 0 refl refl)) (compares 0 refl refl)

Reach-new_socket-IsOrdered_example : IsOrdered racing
Reach-new_socket-IsOrdered_example = Reach-new_socket-IsOrdered racing-Reach

overtaken-Reach_example :
    Reach racing (overtaken racing 0)
    × ((overtaken racing 0).jobs ≡ 1)
    × ((overtaken racing 0).taken ≡ 0 ∷ racing.taken)
    × ((overtaken racing 0).sent ≡ (racing.sequence + 1) % 2 ^ 64 ∷ racing.sent)
    × ((overtaken racing 0).sequence ≢ 0)
unfolding compare_ack exchange_busy
overtaken-Reach_example = overtaken-Reach racing 0 refl refl refl refl (omega arith)
