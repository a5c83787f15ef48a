-- ===== src/Worker/InFlight.antt =====
-- The runs in flight of apps/worker/src/scheduler.ts.
use aesmsg.Prelude.{ℕ, ◌+◌, ◌≡◌, ◌⊎◌, Bool, true, false, List, [], ◌∷◌, Text, text_eq, All}
use aesmsg.Link.{is_some}
use aesmsg.Dict
use aesmsg.Worker.{Job, Scheduler, is_disabled}

abbrev pub one_if : Bool → ℕ
one_if true = 1
one_if false = 0

-- How many runs of this name were begun and have not settled.
abbrev pub runs_of : Text → List Text → ℕ
runs_of name [] = 0
runs_of name (x ∷ xs) = one_if (text_eq x name) + runs_of name xs

-- A name is in flight while a run of it is, of which there is one; a timer's job has an interval; and a
-- scheduler that is not started has no timer.
pub record IsTracked (s : Scheduler) : Type 0 where
  pub tracked :
      (name : Text) → runs_of name s.running ≡ one_if (is_some (Dict.get name s.in_flight))
  pub enabled : All (λ (job : Job). is_disabled job.interval_ms ≡ false) s.handles
  pub idle : (s.started ≡ true) ⊎ (s.handles ≡ [])
