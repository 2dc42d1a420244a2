-- ===== src/Supervisor/Tests.antt =====
-- Concrete runs of src/drift/node/worker_supervisor.py.
use community_ai.Prelude.{◌≡◌, ◌≢◌, refl, true, false, none, some, [], ◌∷◌, whole}
use community_ai.Supervisor.Launch.{Reservation, WorkerLaunch}
use community_ai.Supervisor.State.{
  running, denied, allowed, schedule_closed, schedule_status, World, WorkerRecord, Supervisor,
  lives, reserved, reserves, over_pool, resource_status, budget_status, power_status,
  measured_budget_status,
}
use community_ai.Supervisor.Spawn.{
  spawned, spawn_locked, spawn_policy, spawn_scheduled, spawn_resources, spawn_admitted,
  start_process,
}
use community_ai.Supervisor.Monitor.{rounds}
use community_ai.Supervisor.Control.{
  exit_with, pause_failed, pause_worker, request_pause, stop_process, start_worker,
}
use community_ai.Supervisor.Safety.{Started, spawn_locked-Started}
use community_ai.Supervisor.Pause.{IsStopped, pause_holds}
use community_ai.Supervisor.Spawn.{refused}
use community_ai.Supervisor.Orphan.{IsOrphan, start_orphans}

abbrev shared_gpu : Reservation
shared_gpu = record { bytes = 4; device = 0; pool = 10 }

abbrev launch : WorkerLaunch whole
launch = record {
  worker_id = 1;
  auto_start = true;
  auto_restart = true;
  restart_backoff = 5;
  policy_admitted = true;
  vram = some shared_gpu;
  max_bandwidth_mbps = some 100;
  max_power_watts = none;
}

abbrev world : World whole
world = record {
  schedule = allowed;
  schedule_now = allowed;
  bandwidth = some 20;
  power = none;
  poll = λ pid. none;
  spawn = some 42;
  now = 7;
}

abbrev fresh : WorkerRecord whole
fresh = record {
  launch = launch;
  state = running;
  desired_running = true;
  operator_paused = false;
  process = none;
  last_exit_code = none;
  last_error = none;
  started_at = none;
  restart_count = 0;
  next_restart_at = 0;
  schedule_suspended = false;
  resource_suspended = false;
  last_power_watts = none;
  suspending = false;
}

abbrev busy : WorkerRecord whole
busy = record fresh { process = some 41 }

abbrev supervisor : Supervisor whole
supervisor = record {
  records = (1, fresh) ∷ (2, busy) ∷ [];
  last_bandwidth_mbps = none;
  is_started = true;
  is_closed = false;
}

starts : (spawn_locked whole false true world 1 supervisor fresh).0 ≡ spawned
unfolding spawn_locked spawn_policy spawn_scheduled spawn_resources spawn_admitted start_process
    schedule_status resource_status budget_status power_status measured_budget_status over_pool
    reserved reserves lives
starts = refl

spawn_locked-Started_example :
    Started whole world 1 supervisor fresh
      (spawn_locked whole false true world 1 supervisor fresh).2
spawn_locked-Started_example = spawn_locked-Started whole false true world 1 supervisor fresh starts

pauses : (pause_worker whole true (exit_with 0) busy).0 ≢ pause_failed
unfolding pause_worker stop_process request_pause
pauses e = cc

pause_holds_example :
    IsStopped whole
      (rounds whole 2 ((world, supervisor) ∷ []) (pause_worker whole true (exit_with 0) busy).1)
pause_holds_example = pause_holds whole true (exit_with 0) busy 2 ((world, supervisor) ∷ []) pauses

abbrev night : World whole
night = record world { schedule = denied; schedule_now = denied }

night_denied : schedule_status night.schedule_now ≡ some schedule_closed
unfolding schedule_status
night_denied = refl

start_orphans_example :
    ((start_worker whole night 2 supervisor busy).0 ≡ refused schedule_closed)
    × IsOrphan whole 41 (
        rounds whole 2
          ((night, supervisor) ∷ (world, supervisor) ∷ [])
          (start_worker whole night 2 supervisor busy).2)
start_orphans_example =
    start_orphans whole 41 night 2 supervisor busy schedule_closed
      ((night, supervisor) ∷ (world, supervisor) ∷ []) refl refl refl night_denied
      (refl, (refl, tt))
