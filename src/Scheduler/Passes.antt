-- ===== src/Scheduler/Passes.antt =====
-- The scheduler's loop over the Postgres backend, as cmd/scheduler runs it.
use durablego.Base.{ℕ, zero, suc, ◌≡◌, ◌⊎◌, List, [], ◌∷◌, ◌++◌, some}
use durablego.Api.Backend.{Failure}
use durablego.Engine.History.{Call, passes}
use durablego.Persistence.Session.{Postgres}
use durablego.Persistence.Cancel.{run_scheduler_pass}
use durablego.Persistence.History.{serve, run as run_calls}
use durablego.Persistence.Follows.{Follows}
use durablego.Persistence.Passes.Settled.{IsSettled}
use durablego.Scheduler.{Scheduler, Wakeup, cancelled, ticked, Line, Loop, returned, waiting, run}

-- A scheduler whose Backend is the Postgres store.
unfoldable pub run_postgres : Scheduler → List Wakeup → Postgres → Loop × List Line × Postgres
unfolding run
run_postgres sched = run run_scheduler_pass sched

abbrev pub ticks : ℕ → List Wakeup
ticks zero = []
ticks (suc n) = ticked ∷ ticks n

abbrev pub passes_of : ℕ → List Call
passes_of zero = []
passes_of (suc n) = passes ∷ passes_of n

-- The loop has ended where the context was first found done, or else waits.
abbrev pub Ended : List Wakeup → ℕ → Loop → Type 0
Ended ws n result =
    ((x : Failure) × (rest : List Wakeup) × (ws ≡ ticks n ++ cancelled x ∷ rest)
      × (result ≡ returned x))
    ⊎ ((ws ≡ ticks n) × (result ≡ waiting))

-- The pass after `before` returned an error, or has left nothing to do at its time.
abbrev pub PassDone : Postgres → Postgres → Type 0
PassDone before left =
    ((x : Failure) × ((serve passes before).0 ≡ some x))
    ⊎ IsSettled (before.driver.clock before.calls) left.committed

pub record Ran (p : Postgres) (ws : List Wakeup) (o : Loop × List Line × Postgres) : Type 0 where
  pub rounds : ℕ
  pub ended : Ended ws rounds o.0
  pub left : o.2 ≡ run_calls (passes_of rounds) p
  pub follows : Follows p.committed o.2.committed
  pub settled : (k : ℕ) → rounds ≡ suc k → PassDone (run_calls (passes_of k) p) o.2
