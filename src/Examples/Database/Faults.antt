-- ===== src/Examples/Database/Faults.antt =====
-- Runs of the Postgres backend in which a call of the driver fails.
use durablego.Base.{ℕ, ◌==◌, if◌then◌else◌, String, ◌≡◌, refl, Option, none, some}
use durablego.Api.Backend.{other}
use durablego.Engine.History.{claims}
use durablego.Persistence.Session.{Postgres}
use durablego.Persistence.History.{serve, run}
use durablego.Persistence.History.Safety.{IsReady, IsAtomic, serve-IsAtomic, run-Follows}
use durablego.Persistence.Follows.{Follows}
use durablego.Examples.Database.{driver, evaluated, opened, opened-IsReady, reclaimed}

-- A driver that fails one call.
abbrev failing : ℕ → String → ℕ → Option String
failing n what k = if k == n then some what else none

-- The commit of the claim fails.
abbrev broken : Postgres
broken = record opened { driver = record driver { fault = failing 16 "connection reset" } }

broken-IsReady : IsReady broken
broken-IsReady = record {
  keyed = opened-IsReady.keyed;
  sound = opened-IsReady.sound;
  attempts = opened-IsReady.attempts;
}

broken_claim_fails : (serve (claims "a" "default") broken).0 ≡ some (other "connection reset")
unfolding evaluated
broken_claim_fails = refl

serve-IsAtomic_example : IsAtomic broken.committed (serve (claims "a" "default") broken)
serve-IsAtomic_example = serve-IsAtomic (claims "a" "default") broken broken-IsReady

run-Follows_example :
    Follows broken.committed (run reclaimed broken).committed × IsReady (run reclaimed broken)
run-Follows_example = run-Follows reclaimed broken broken-IsReady
