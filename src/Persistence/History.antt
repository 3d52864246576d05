-- ===== src/Persistence/History.antt =====
-- Histories of the Postgres backend: sequences of whole calls, each of which may meet faults of the
-- driver.
pub mod Safety
use durablego.Base.{ℕ, String, Bool, List, [], ◌∷◌, Option, none, some}
use durablego.Api.Backend.{Failure, Reply, good, bad}
use durablego.Engine.History.{Call, starts, claims, heartbeats, completes, fails, cancels, passes}
use durablego.Persistence.Session.{Postgres}
use durablego.Persistence.Start.{start}
use durablego.Persistence.Claim.{claim}
use durablego.Persistence.Lease.{heartbeat, complete, fail}
use durablego.Persistence.Cancel.{cancel, run_scheduler_pass}

-- The error that a call returned, if any, and what it left.
abbrev pub outcome : {A : Type 0} → Reply A × Postgres → Option Failure × Postgres
outcome (good _, p) = (none, p)
outcome (bad x, p) = (some x, p)

unfoldable pub serve : Call → Postgres → Option Failure × Postgres
serve (starts d key) p = outcome (start d key p)
serve (claims worker queue) p = outcome (claim worker queue p)
serve (heartbeats id worker token) p = outcome (heartbeat id worker token p)
serve (completes id worker token) p = outcome (complete id worker token p)
serve (fails id worker token retryable message) p =
    outcome (fail id worker token retryable message p)
serve (cancels wid) p = outcome (cancel wid p)
serve passes p = outcome (run_scheduler_pass p)

unfoldable pub run : List Call → Postgres → Postgres
run [] p = p
run (c ∷ cs) p = run cs (serve c p).1
