-- ===== src/Scheduler.antt =====
-- internal/scheduler/scheduler.go: the loop that runs a scheduler pass at each tick.
pub mod Passes
use durablego.Base.{
  ℕ, zero, suc, ◌<◌, List, [], ◌∷◌, ◌++◌, Option, none, some, ℤ, positive_or, Bool, true, false,
  if◌then◌else◌, ltb,
}
use durablego.Api.Backend.{Failure, Reply, good, bad}

-- The fields that Run reads: whether there is a Logger, and the interval in nanoseconds.
pub record Scheduler : Type 0 where
  pub interval : ℤ
  pub logger : Bool

-- The interval of the ticker.
unfoldable pub ticker_interval : Scheduler → ℕ
ticker_interval sched = positive_or sched.interval 1_000_000_000

-- What the select finds in one round: the context is done, with ctx.Err(), or the ticker ticked.
pub data Wakeup : Type 0 where
  cancelled : Failure → Wakeup
  ticked : Wakeup

pub data Line : Type 0 where
  pass_error : Failure → Line
  pass_changed : ℕ → Line

-- What Run returned, or that it waits for the next round.
pub data Loop : Type 0 where
  returned : Failure → Loop
  waiting : Loop

-- The lines that are logged after a pass.
unfoldable pub logged : {A : Type 0} → Bool → Reply ℕ × A → List Line
logged false _ = []
logged true (bad x, _) = pass_error x ∷ []
logged true (good changed, _) = if ltb 0 changed then pass_changed changed ∷ [] else []

module _ {S : Type 0} (run_scheduler_pass : S → Reply ℕ × S) (sched : Scheduler) where
  -- Run, over the rounds of its loop: its result, the lines logged, and the backend's state.
  unfoldable pub run : List Wakeup → S → Loop × List Line × S
  unfolding logged
  run [] s = (waiting, [], s)
  run (cancelled x ∷ ws) s = (returned x, [], s)
  run (ticked ∷ ws) s =
      let pass = run_scheduler_pass s in
      let (result, lines, t) = run ws pass.1 in (result, logged sched.logger pass ++ lines, t)
