-- ===== src/Tests/NetworkRuns.antt =====
-- Runs of src/network.cpp against a kernel that grants every request, with a store that may refuse.
use wirelab_experiments.Common.{
  ℕ, ◌≡◌, ◌<◌, refl, true, false, [], ◌∷◌, none, some, Outcome, returned, thrown, arith, codes,
}
use wirelab_experiments.Inet.{Inet}
use wirelab_experiments.Tests.Samples.{small_inet, lab_config}
use wirelab_experiments.Tests.ConfigRuns.{lab_config-valid}
use wirelab_experiments.Config.{NetworkConfig, validate}
use wirelab_experiments.Network.Outside.{
  Exception, runtime_error, NetState, Kernel, Controller, Reply, puts, inactive,
  awaiting_confirmation, confirmed, rolling_back, rollback_failed,
}
use wirelab_experiments.Network.Checks.{revalidate}
use wirelab_experiments.Network.Restore.{undo_and_settle, undo}
use wirelab_experiments.Network.{apply, confirm, tick}
use wirelab_experiments.Network.Netlink.{store_put}
use wirelab_experiments.Network.Journal.{JournalFirst, apply-JournalFirst}
use wirelab_experiments.Network.Steady.{keeps_guard}
use wirelab_experiments.Network.Guard.{undo_and_settle-guard}
use wirelab_experiments.Common.{Text, ◌⊎◌}
use wirelab_experiments.Network.Timeout.{confirm-returned, tick_abandons}

-- The world is the time.
abbrev pub willing_kernel : Outcome Exception (Unit {0}) → Kernel
willing_kernel stored = record {
  World = ℕ;
  send = λ message w. (Reply.accepted, w);
  write_file = λ path text w. (returned tt, w);
  command = λ argv text w. (returned tt, w);
  put = λ s w. (stored, w);
  link_index = λ w name. 1;
  read_file = λ w path. returned (codes "0");
  table_exists = λ w family. returned false;
  route_tables = λ w. returned [];
  rule_priorities = λ w. returned [];
  link_info = λ w name. returned (record {
    ifname = name;
    address = codes "02:00:00:00:00:09";
    flags = [];
    has_master = false;
    has_addresses = false;
  });
  check_ruleset = λ w text. returned tt;
  clock = λ w. w;
}

abbrev pub disk_full : Exception
disk_full = runtime_error (codes "disk full")

abbrev pub waiting_state : NetState
waiting_state = record {
  status = awaiting_confirmation;
  config = some lab_config;
  baseline = [];
  ip_forward = codes "0";
  rp_filter_all = codes "0";
  error = none;
}

-- The deadline is 100.
abbrev pub waiting_at : ℕ → Controller ℕ
waiting_at time = record { enabled = true; state = waiting_state; deadline = 100; world = time }

pub revalidate-returned :
    (kernel : Kernel) (inet : Inet) (c : NetworkConfig) (n : Controller kernel.World)
    → validate inet c ≡ []
    → (revalidate kernel inet c n).outcome ≡ returned c
unfolding revalidate
revalidate-returned kernel inet c n h = rw (h, revalidate) refl

apply-JournalFirst_example :
    JournalFirst
      (willing_kernel (returned tt))
      small_inet
      lab_config
      5
      (apply
        (willing_kernel (returned tt))
        small_inet
        lab_config
        (record (waiting_at 5) { state = record waiting_state { status = inactive } })).log
apply-JournalFirst_example =
    apply-JournalFirst (willing_kernel (returned tt)) small_inet lab_config
      (record (waiting_at 5) { state = record waiting_state { status = inactive } })

confirm-runs :
    (confirm (willing_kernel (returned tt)) small_inet (waiting_at 99)).outcome ≡ returned tt
unfolding confirm tick store_put
confirm-runs = refl

confirm-returned_example :
    let kernel = willing_kernel (returned tt) in
    (true ≡ true)
    × (awaiting_confirmation ≡ awaiting_confirmation)
    × (99 < 100)
    × ((confirm kernel small_inet (waiting_at 99)).controller.state
        ≡ record waiting_state { status = confirmed })
    × ((confirm kernel small_inet (waiting_at 99)).controller.deadline ≡ 100)
    × ((confirm kernel small_inet (waiting_at 99)).log
        ≡ puts (record waiting_state { status = confirmed }) ∷ [])
confirm-returned_example =
    confirm-returned (willing_kernel (returned tt)) small_inet (waiting_at 99) confirm-runs

tick_abandons_example :
    let n' = (tick (willing_kernel (thrown disk_full)) small_inet (waiting_at 100)).controller in
    ((tick (willing_kernel (thrown disk_full)) small_inet (waiting_at 100)).outcome
      ≡ thrown disk_full)
    × ((tick (willing_kernel (thrown disk_full)) small_inet (waiting_at 100)).log
        ≡ puts (record waiting_state { status = rolling_back }) ∷ [])
    × ((w : ℕ)
        → tick (willing_kernel (thrown disk_full)) small_inet (record n' { world = w })
          ≡ record { outcome = returned tt; controller = record n' { world = w }; log = [] })
tick_abandons_example =
    tick_abandons (willing_kernel (thrown disk_full)) small_inet (waiting_at 100) lab_config
      disk_full (refl, refl, omega arith) refl
      (revalidate-returned (willing_kernel (thrown disk_full)) small_inet lab_config
        (waiting_at 100) lab_config-valid)
      refl

undo_and_settle-guard_example :
    let kernel = willing_kernel (thrown disk_full) in
    (errors : Text) × ((undo kernel small_inet lab_config waiting_state (waiting_at 100)).outcome
      ≡ returned errors)
    × ((errors ≡ [])
        ⊎ ((keeps_guard
                (undo_and_settle kernel small_inet lab_config waiting_state (waiting_at 100)).log
              ≡ true)
            × ((undo_and_settle kernel small_inet lab_config waiting_state
                  (waiting_at 100)).controller.state.status
                ≡ rollback_failed)))
undo_and_settle-guard_example =
    undo_and_settle-guard (willing_kernel (thrown disk_full)) small_inet lab_config waiting_state
      (waiting_at 100)
