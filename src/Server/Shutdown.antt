-- ===== src/Server/Shutdown.antt =====
-- The end of `work` in src/server.cpp, behind its loop.
pub mod Settled
use wirelab_experiments.Common.{Bool, true, false, List, [], returned, if◌then◌else◌}
use wirelab_experiments.Inet.{Inet}
use wirelab_experiments.Engine.{Engine}
use wirelab_experiments.Network.Outside.{Kernel, Controller, Run, pure, try_catch, get_state, ◌>>=◌}
use wirelab_experiments.Network.Netlink.{N}
use wirelab_experiments.Network.Checks.{is_awaiting}
use wirelab_experiments.Network.{rollback}
use wirelab_experiments.Server.Sampling.{Runtime, Occasion, end_capture}

module _ (kernel : Kernel) (inet : Inet) where
  -- A configuration that nobody confirmed is rolled back; an exception is only printed.
  unfoldable pub leave_network : N kernel (Unit {0})
  leave_network =
      try_catch (do s ← get_state; if is_awaiting s.status then rollback kernel inet else pure tt)
        (λ e. pure tt)

  -- What is left: the capture, stopped and sampled, the jobs that wait, and the network.
  pub record Rest (J : Type 0) : Type 0 where
    pub runtime : Runtime
    pub tasks : List J
    pub network : Run kernel.World (Unit {0})

  unfoldable pub finish :
      {J : Type 0} → Engine → Occasion → Runtime → List J → Controller kernel.World → Rest J
  finish halted o s tasks n = record {
    runtime = end_capture halted o s;
    tasks = [];
    network = leave_network n;
  }
