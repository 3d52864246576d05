-- ===== src/Engine/History/Safety.antt =====
-- No history panics, and each keeps the engine's invariant and what no later move takes back.
use durablego.Base.{ℕ, ◌≡◌, refl, List, [], ◌∷◌, Option, some, ℤ, get, arith, positive_or_pos}
use durablego.Spec.Later.{Later}
use durablego.Engine.State.{Engine, new}
use durablego.Engine.Start.Steps.{start-Lawful}
use durablego.Engine.Claim.Steps.{claim-Lawful}
use durablego.Engine.Lease.Steps.{heartbeat-Lawful, complete-Lawful, fail-Lawful}
use durablego.Engine.Cancel.Steps.{cancel-Lawful}
use durablego.Engine.Sweep.Steps.{run_scheduler_pass-Lawful}
use durablego.Engine.Steps.{Steps, here, Steps-trans}
use durablego.Engine.Steps.Valid.{EngineIsValid, Steps-IsValid, Steps-Later}
use durablego.Engine.Steps.Lawful.{Lawful, lawful}
use durablego.Engine.History.{
  Call, starts, claims, heartbeats, completes, fails, cancels, passes, left, serve, run,
}

pub new-IsValid : (now : ℕ → ℕ) (ttl max : ℤ) → EngineIsValid (new now ttl max)
unfolding new get
new-IsValid now ttl max = record {
  rows = record {
    counts = λ id a h. absurd (cc);
    ident = λ id a h. absurd (cc);
    workflow_ident = λ wid w h. absurd (cc);
    home = λ id a h. absurd (cc);
    deps = λ id a h _. absurd (cc);
    listed = λ wid. tt;
    indexed = λ id a h. absurd (cc);
    done = λ wid w h _ id a ha _. absurd (cc);
    fresh = record { workflow = λ n h. refl; activity = λ n h. refl };
  };
  attempts = positive_or_pos max 3 (omega arith);
  ttl = positive_or_pos ttl _ (omega arith);
  known = λ k wid h. absurd (cc);
  logs = λ wid. record { rising = tt; below = tt };
}

left-Lawful :
    {A : Type 0} {e : Engine} {o : Option (A × Engine)}
    → Lawful e o
    → (f : Engine) × (left o ≡ some f) × Steps e f
left-Lawful (lawful {a} {f} s) = (f, refl, s)

serve-Steps :
    (c : Call) (e : Engine) → EngineIsValid e → (f : Engine) × (serve c e ≡ some f) × Steps e f
unfolding serve
serve-Steps (starts d key) e v = left-Lawful (start-Lawful d key e v)
serve-Steps (claims worker queue) e v = left-Lawful (claim-Lawful worker queue e)
serve-Steps (heartbeats id worker token) e v = left-Lawful (heartbeat-Lawful id worker token e v)
serve-Steps (completes id worker token) e v = left-Lawful (complete-Lawful id worker token e v)
serve-Steps (fails id worker token retryable message) e v =
    left-Lawful (fail-Lawful id worker token retryable message e v)
serve-Steps (cancels wid) e v = left-Lawful (cancel-Lawful wid e v)
serve-Steps passes e v = left-Lawful (run_scheduler_pass-Lawful e v)

pub run-Steps :
    (cs : List Call) (e : Engine) → EngineIsValid e → (f : Engine) × (run cs e ≡ some f) × Steps e f
unfolding run
run-Steps [] e v = (e, refl, here)
run-Steps (c ∷ cs) e v =
    let (f, r, s) = serve-Steps c e v in
    let (g, r', s') = run-Steps cs f (Steps-IsValid e s v) in (g, rw (r, run) r', Steps-trans s s')

-- A run that is known to end ended by lawful steps.
pub Steps-of_run : (cs : List Call) (e f : Engine) → EngineIsValid e → run cs e ≡ some f → Steps e f
Steps-of_run cs e f v r =
    let (g, r', s) = run-Steps cs e v in let same : g ≡ f = ground arith in rw same at s

-- Every sequence of calls on a new engine, whatever the clock, the settings and the arguments, runs
-- to its end without a nil dereference, and the engine that it leaves satisfies the invariant.
pub run-new-IsValid :
    (now : ℕ → ℕ) (ttl max : ℤ) (cs : List Call)
    → (e : Engine) × (run cs (new now ttl max) ≡ some e) × EngineIsValid e
run-new-IsValid now ttl max cs =
    let v = new-IsValid now ttl max in
    let (e, r, s) = run-Steps cs (new now ttl max) v in (e, r, Steps-IsValid (new now ttl max) s v)

-- What a history leaves of the rows it found: each activity and each workflow is still there, with
-- its identity; an activity's fencing token has not fallen, and an activity that had ended is as it
-- ended; a workflow that had completed or failed still has that status, and one that had been
-- cancelled is cancelled or failed.
pub run-Later :
    (cs : List Call) (e f : Engine) → EngineIsValid e → run cs e ≡ some f → Later e.board f.board
run-Later cs e f v r = Steps-Later e v (Steps-of_run cs e f v r)
