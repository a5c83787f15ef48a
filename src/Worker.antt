-- ===== src/Worker.antt =====
-- apps/worker/src/scheduler.ts. The engine's timers and promises are the steps: a timer that is set may
-- fire at any time, and a run that was begun may settle at any time. The log lines are left out.
pub mod InFlight
use aesmsg.Prelude.{
  ℕ, Bool, true, false, Option, none, some, List, [], ◌∷◌, Text, text_eq, if◌then◌else◌,
}
use mathlib.Core.List.{Mem}
use aesmsg.Link.{ℤ, pos, negsuc, is_some}
use aesmsg.Dict
use aesmsg.Dict.{Dict}

pub record Job : Type 0 where
  pub name : Text
  pub interval_ms : ℤ
  pub run_on_start : Bool

-- `running` holds the names of the runs that were begun and have not settled.
pub record Scheduler : Type 0 where
  pub started : Bool
  pub handles : List Job
  pub in_flight : Dict (Unit {0})
  pub running : List Text

abbrev pub init : Scheduler
init = record { started = false; handles = []; in_flight = []; running = [] }

-- A run that is still in flight is not stacked; else the job is begun and its promise is kept.
unfoldable pub execute : Job → Scheduler → Scheduler
execute job s =
    if is_some (Dict.get job.name s.in_flight)
    then s
    else record s { in_flight = Dict.set job.name tt s.in_flight; running = job.name ∷ s.running }

-- `intervalMs <= 0`
abbrev pub is_disabled : ℤ → Bool
is_disabled (pos ℕ.zero) = true
is_disabled (pos (ℕ.suc n)) = false
is_disabled (negsuc n) = true

abbrev pub set_timer : Job → Scheduler → Scheduler
set_timer job s = record s { handles = job ∷ s.handles }

abbrev pub start_job : Job → Scheduler → Scheduler
start_job job s =
    if is_disabled job.interval_ms
    then s
    else set_timer job (if job.run_on_start then execute job s else s)

unfoldable pub start_jobs : List Job → Scheduler → Scheduler
unfolding execute
start_jobs [] s = s
start_jobs (job ∷ jobs) s = start_jobs jobs (start_job job s)

unfoldable pub start : List Job → Scheduler → Scheduler
unfolding start_jobs
start jobs s = if s.started then s else start_jobs jobs (record s { started = true })

-- The wait for the runs in flight changes nothing.
unfoldable pub stop : Scheduler → Scheduler
stop s = record s { started = false; handles = [] }

unfoldable pub remove_first : Text → List Text → List Text
remove_first name [] = []
remove_first name (x ∷ xs) =
    let rest = remove_first name xs in if text_eq x name then xs else x ∷ rest

-- The run of this name settles, whether it failed or not: the `finally` of its promise.
unfoldable pub settle : Text → Scheduler → Scheduler
unfolding remove_first
settle name s = record s {
  in_flight = Dict.remove name s.in_flight;
  running = remove_first name s.running;
}

-- What can happen to a scheduler of these jobs.
pub data Step (jobs : List Job) : Scheduler → Scheduler → Type 0 where
  starts : (s : Scheduler) → Step jobs s (start jobs s)
  stops : (s : Scheduler) → Step jobs s (stop s)
  ticks : (job : Job) (s : Scheduler) → Mem job s.handles → Step jobs s (execute job s)
  settles : (name : Text) (s : Scheduler) → Mem name s.running → Step jobs s (settle name s)

pub data Reachable (jobs : List Job) : Scheduler → Type 0 where
  at_init : Reachable jobs init
  after : (s t : Scheduler) → Reachable jobs s → Step jobs s t → Reachable jobs t
