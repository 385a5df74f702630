-- ===== src/Restart/Boot.antt =====
-- packages/worker-manager/src/restart-coordinator.ts: the boot-loop quarantine.
use clusterkit.Common.{ℕ, zero, suc, ◌≡◌, true}
use clusterkit.Fleet.Record.{Host, Env}
use clusterkit.Restart.Record.{State}
use clusterkit.Restart.{on_worker_crash}
use clusterkit.Restart.Rounds.{turn}

-- The quarantine's counters, which the restart loop does not touch.
abbrev boots : State → ℕ × ℕ
boots s = (s.coord.boot_failures, s.coord.quarantined_slots)

-- A boot loop: workers that crash without having come online while others serve, turns of the
-- restart loop, and whatever becomes of the fleet and its clock meanwhile, in any order.
pub data BootLoop (e : Env) (s : State) : ℕ → State → Type 0 where
  not_yet : BootLoop e s zero s
  turned : {k : ℕ} {t : State} (u : State) → BootLoop e s k t → u ≡ turn e t → BootLoop e s k u
  meanwhile :
      {k : ℕ} {t : State} (h : Host) (u : State)
      → BootLoop e s k t
      → u ≡ record t { host = h }
      → BootLoop e s k u
  crashed :
      {k : ℕ} {t : State} (id : ℕ) (u : State)
      → BootLoop e s k t
      → u ≡ on_worker_crash e id true true t
      → BootLoop e s (suc k) u
