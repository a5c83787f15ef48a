-- ===== src/Mobile/Identity/IdleLock.antt =====
-- apps/mobile/src/identity/idle-lock-timer.ts. `handle` is the time that the pending timeout is due,
-- and an engine fires a timeout when it is due or later. The clock readings are arguments.
use aesmsg.Prelude.{
  ℕ, ◌+◌, ◌-◌, ◌≤◌, ◌<◌, ◌≡◌, Bool, true, false, Option, none, some, arith, leb, if◌then◌else◌, ◌⊎◌,
}

pub record IdleTimer : Type 0 where
  pub handle : Option ℕ
  pub deadline : ℕ
  pub expired : Bool

abbrev pub init : IdleTimer
init = record { handle = none; deadline = 0; expired = false }

-- `onExpire` is called where `expired` is set.
unfoldable pub tick : ℕ → IdleTimer → IdleTimer
tick now t =
    if leb t.deadline now
    then record t { handle = none; expired = true }
    else record t { handle = some (now + (t.deadline - now)) }

unfoldable pub reset : ℕ → ℕ → IdleTimer → IdleTimer
reset timeout now t = record t {
  deadline = now + timeout;
  handle = elim t.handle [ none ↦ some (now + timeout) | some due ↦ some due ];
}

unfoldable pub stop : IdleTimer → IdleTimer
stop t = record t { handle = none }

-- A run of the timer up to a time, with the time of the last reset. The clock does not run backwards.
pub data Run (timeout : ℕ) : ℕ → ℕ → IdleTimer → Type 0 where
  begins : (now : ℕ) → Run timeout now now (reset timeout now init)
  waits :
      {now last : ℕ} {t : IdleTimer} (later : ℕ)
      → now ≤ later
      → Run timeout now last t
      → Run timeout later last t
  resets :
      {now last : ℕ} {t : IdleTimer}
      → Run timeout now last t
      → Run timeout now now (reset timeout now (record t { expired = false }))
  stops : {now last : ℕ} {t : IdleTimer} → Run timeout now last t → Run timeout now last (stop t)
  fires :
      {now last : ℕ} {t : IdleTimer} (due : ℕ)
      → t.handle ≡ some due
      → due ≤ now
      → Run timeout now last t
      → Run timeout now last (tick now t)

abbrev DueBy : Option ℕ → ℕ → Type 0
DueBy none deadline = Unit {0}
DueBy (some due) deadline = due ≤ deadline

DueBy-le : (due : Option ℕ) (a b : ℕ) → a ≤ b → DueBy due a → DueBy due b
DueBy-le none a b le h = h
DueBy-le (some due) a b le h = omega (arith, le, h)

-- The last reset is past, the deadline is the timeout after the last reset, the pending timeout is due by then, and the lock
-- was called only at the deadline or later.
pub record IsTimed (timeout now last : ℕ) (t : IdleTimer) : Type 0 where
  pub passed : last ≤ now
  pub deadline : t.deadline ≡ last + timeout
  pub due : DueBy t.handle t.deadline
  pub expiry : (t.expired ≡ false) ⊎ (last + timeout ≤ now)

tick-IsTimed :
    (timeout now last : ℕ) (t : IdleTimer)
    → IsTimed timeout now last t
    → IsTimed timeout now last (tick now t)
unfolding tick
tick-IsTimed timeout now last t h = ground (arith, h.passed, h.deadline, h.due, h.expiry)

reset-IsTimed :
    (timeout now : ℕ) (t : IdleTimer)
    → DueBy t.handle (now + timeout)
    → IsTimed timeout now now (reset timeout now (record t { expired = false }))
unfolding reset
reset-IsTimed timeout now t h = ground (arith, h)

-- The idle lock is never called before the app was idle for the whole timeout: in every run, at any
-- time, either the lock was not called since the last reset, or that reset is a timeout ago. The
-- pending timeout never outlasts the deadline.
pub Run-IsTimed :
    {timeout now last : ℕ} {t : IdleTimer} → Run timeout now last t → IsTimed timeout now last t
unfolding reset stop
Run-IsTimed (begins now) = ground arith
Run-IsTimed (waits later le r) =
    let h = Run-IsTimed r in ground (arith, h.passed, h.deadline, h.due, h.expiry)
Run-IsTimed {timeout = timeout} (resets {now} {last} {t} r) =
    let h = Run-IsTimed r in
    reset-IsTimed timeout now t
      (DueBy-le t.handle t.deadline (now + timeout) (ground (arith, h.passed, h.deadline)) h.due)
Run-IsTimed (stops r) =
    let h = Run-IsTimed r in ground (arith, h.passed, h.deadline, h.due, h.expiry)
Run-IsTimed {timeout = timeout} (fires {now} {last} {t} due e le r) =
    tick-IsTimed timeout now last t (Run-IsTimed r)

-- While a timeout is pending, its next firing at the deadline or later calls the lock, and one before
-- leaves a timeout that is due exactly at the deadline.
pub tick_lem :
    (now : ℕ) (t : IdleTimer)
    → ((t.deadline ≤ now) × ((tick now t).expired ≡ true) × ((tick now t).handle ≡ none))
      ⊎ ((now < t.deadline)
          × ((tick now t).expired ≡ t.expired)
          × ((tick now t).handle ≡ some t.deadline))
unfolding tick
tick_lem now t = ground arith
