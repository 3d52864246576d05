-- ===== src/Examples/Database/Claims.antt =====
-- Claims of the Postgres backend on the workflow of the examples.
use durablego.Base.{suc, inr, false, ◌<◌, ◌≤◌, ◌≡◌, refl, inl, true, none, In, arith}
use durablego.Types.{ActivityStatus, Claim}
use durablego.Api.Backend.{good}
use durablego.Persistence.Tables.{ActivityRow}
use durablego.Persistence.Claim.{claim}
use durablego.Persistence.Claims.Oldest.{IsPickable}
use durablego.Persistence.Lease.{heartbeat, complete, fail}
use durablego.Persistence.History.{serve, run}
use durablego.Engine.State.{second}
use durablego.Persistence.Fencing.{HoldsLease, Rejects, only_holders_heard}
use durablego.Persistence.Claims.{Granted, claim-Granted, short_lease-not-HoldsLease}
use durablego.Persistence.Progress.{IsAccepted}
use durablego.Persistence.Progress.Claims.{claim-IsAccepted}
use durablego.Examples.Database.{
  database, begun, evaluated, first_claim, opened, opened-IsReady, returned, brief, brief_opened,
  brief_opened-IsReady, run-IsReady, opened-IsFaultless,
}

first_claim_good : (claim "a" "default" opened).0 ≡ good first_claim
unfolding evaluated
first_claim_good = refl

first_claim_returned : claim "a" "default" opened ≡ (good first_claim, run begun database)
unfolding run serve
first_claim_returned = returned (claim "a" "default" opened) first_claim first_claim_good

-- The claim that it gives ends at once.
abbrev brief_claim : Claim
brief_claim = record first_claim { lease_expires_at = 1013 }

brief_claim_good : (claim "a" "default" brief_opened).0 ≡ good brief_claim
unfolding evaluated
brief_claim_good = refl

brief_claim_returned : claim "a" "default" brief_opened ≡ (good brief_claim, run begun brief)
unfolding run serve
brief_claim_returned = returned (claim "a" "default" brief_opened) brief_claim brief_claim_good

brief_later :
    brief_opened.driver.clock brief_opened.calls
    ≤ (run begun brief).driver.clock (run begun brief).calls
unfolding evaluated
brief_later = omega arith

brief_short : brief_opened.lease_ttl < second
unfolding evaluated
brief_short = omega arith

short_lease-not-HoldsLease_example : ¬ HoldsLease "id-7" "a" 1 (run begun brief)
short_lease-not-HoldsLease_example =
    short_lease-not-HoldsLease "a" "default" brief_opened (run begun brief) brief_claim
      brief_opened-IsReady brief_short brief_claim_returned brief_later

brief_unheld : ¬ HoldsLease "id-7" "a" 1 (run begun brief)
brief_unheld =
    short_lease-not-HoldsLease "a" "default" brief_opened (run begun brief) brief_claim
      brief_opened-IsReady brief_short brief_claim_returned brief_later

claim-Granted_example : Granted "a" "default" opened first_claim (run begun database)
claim-Granted_example =
    claim-Granted "a" "default" opened (run begun database) first_claim opened-IsReady
      first_claim_returned

only_holders_heard_example :
    Rejects (heartbeat "id-7" "a" 1) (run begun brief)
    × Rejects (complete "id-7" "a" 1) (run begun brief)
    × Rejects (fail "id-7" "a" 1 true "late") (run begun brief)
only_holders_heard_example =
    only_holders_heard "id-7" "a" 1 true "late" (run begun brief) run-IsReady brief_unheld

-- The row of the first activity when the workflow has started.
abbrev open_row : ActivityRow
open_row = record {
  id = "id-7";
  workflow_execution_id = "id-4";
  name = "validate";
  task_queue = "default";
  status = ActivityStatus.ready;
  attempt = 0;
  max_attempts = 2;
  retry_backoff_ms = 1000;
  lease_owner = none;
  lease_expires_at = none;
  heartbeat_at = none;
  fencing_token = 0;
  next_attempt_at = 1000;
  last_error = none;
  created_at = 1000;
  updated_at = 1000;
}

open_row-In : In open_row opened.committed.activities
unfolding evaluated
open_row-In = inl refl

open_row-IsPickable : IsPickable "default" open_row
open_row-IsPickable = (refl, inr (inr refl))

open_row_free : opened.driver.locked (suc opened.calls) "id-7" ≡ false
unfolding evaluated
open_row_free = refl

claim-IsAccepted_example : IsAccepted (claim "a" "default" opened).0
claim-IsAccepted_example =
    claim-IsAccepted "a" "default" opened open_row opened-IsFaultless open_row-In
      open_row-IsPickable open_row_free
