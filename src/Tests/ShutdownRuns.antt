-- ===== src/Tests/ShutdownRuns.antt =====
-- The end of src/server.cpp while a confirmation is awaited.
use wirelab_experiments.Common.{◌≡◌, ◌⊎◌, refl, false, [], ◌∷◌, returned}
use wirelab_experiments.Network.Outside.{awaiting_confirmation}
use wirelab_experiments.Network.Checks.{is_awaiting}
use wirelab_experiments.Server.Shutdown.{finish}
use wirelab_experiments.Network.Settled.{IsSettled}
use wirelab_experiments.Server.Shutdown.Settled.{finish_settles}
use wirelab_experiments.Tests.Samples.{small_inet, lab_config}
use wirelab_experiments.Tests.ConfigRuns.{lab_config-valid}
use wirelab_experiments.Tests.NetworkRuns.{willing_kernel, waiting_at, revalidate-returned}
use wirelab_experiments.Tests.RuntimeRuns.{captures, at_time, started_system, read_job}

finish_settles_example :
    let n = waiting_at 5 in
    let r =
      finish
        (willing_kernel (returned tt))
        small_inet
        started_system.engine
        (at_time 9 4)
        captures
        (read_job ∷ [])
        n in
    (r.tasks ≡ [])
    × (r.network.outcome ≡ returned tt)
    × (((is_awaiting n.state.status ≡ false)
          × (r.network ≡ record { outcome = returned tt; controller = n; log = [] }))
        ⊎ ((n.state.status ≡ awaiting_confirmation) × IsSettled r.network.controller.state.status))
finish_settles_example =
    finish_settles (willing_kernel (returned tt)) small_inet started_system.engine (at_time 9 4)
      captures (read_job ∷ []) (waiting_at 5) lab_config refl refl
      (revalidate-returned (willing_kernel (returned tt)) small_inet lab_config (waiting_at 5)
        lab_config-valid)
