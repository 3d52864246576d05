-- ===== src/Persistence/Claim.antt =====
-- Postgres.Claim.
use durablego.Base.{
  ℕ, suc, ◌+◌, ◌*◌, ◌/◌, String, Bool, not, ◌&&◌, ◌||◌, List, [], ◌∷◌, Option, none, some, text_eq,
  filter, sort_by, concat, decimal,
}
use durablego.Types.{ActivityStatus, Claim, no_runnable_activity, is_ready}
use durablego.Engine.State.{second}
use durablego.Api.Backend.{known}
use durablego.Persistence.Tables.{ActivityRow, Tables, update_where}
use durablego.Persistence.Session.{
  Postgres, Tx, pure, raise, ◌>>=◌, ◌>>◌, statement, begin, commit, deferring_rollback,
}
use durablego.Persistence.Helpers.{append_event}
use durablego.Persistence.Reads.{created_before, time_or_zero}

-- make_interval(secs => int64(p.leaseTTL.Seconds())): the lease without its fraction of a second.
abbrev pub lease_interval : Postgres → ℕ
lease_interval p = (p.lease_ttl / second) * second

-- The WHERE of `picked`.
unfoldable pub is_pickable : String → ActivityRow → Bool
is_pickable queue a =
    is_ready a.status && (text_eq queue "" || text_eq a.task_queue "" || text_eq a.task_queue queue)

abbrev pub first_row : List ActivityRow → Option ActivityRow
first_row [] = none
first_row (a ∷ _) = some a

-- The rows of the WHERE that FOR UPDATE SKIP LOCKED leaves: `locked` tells which another transaction
-- has locked.
abbrev pub is_free : (String → Bool) → String → ActivityRow → Bool
is_free locked queue a = is_pickable queue a && not (locked a.id)

-- `picked`
unfoldable pub picked : (String → Bool) → String → Tables → Option ActivityRow
unfolding is_pickable created_before
picked locked queue t =
    first_row (sort_by created_before (filter (is_free locked queue) t.activities))

-- The SET of the UPDATE.
unfoldable pub leased : String → ℕ → ℕ → ActivityRow → ActivityRow
leased worker now expires a = record a {
  status = ActivityStatus.running;
  attempt = suc a.attempt;
  lease_owner = some worker;
  fencing_token = suc a.fencing_token;
  lease_expires_at = some expires;
  heartbeat_at = some now;
  updated_at = now;
}

-- The UPDATE … FROM picked … RETURNING.
unfoldable pub lease_picked : String → Postgres → Option ActivityRow → Option ActivityRow × Tables
unfolding leased
lease_picked worker p none = (none, p.view)
lease_picked worker p (some a) =
    let change = leased worker p.started (p.started + lease_interval p) in
    (
      some (change a),
      record p.view { activities = update_where (λ b. text_eq b.id a.id) change p.view.activities },
    )

unfoldable pub claim_of_row : ActivityRow → Claim
claim_of_row a = record {
  activity_id = a.id;
  workflow_id = a.workflow_execution_id;
  name = a.name;
  attempt = a.attempt;
  fencing_token = a.fencing_token;
  lease_expires_at = time_or_zero a.lease_expires_at;
  application_key = concat a.workflow_execution_id (concat ":" a.name);
}

abbrev pub claim_message : String → ActivityRow → String
claim_message worker a =
    concat a.name
      (concat " claimed by " (concat worker (concat " token " (decimal a.fencing_token))))

unfoldable pub claim_picked : String → Option ActivityRow → Tx Claim
unfolding claim_of_row append_event commit
claim_picked worker none = raise (known no_runnable_activity)
claim_picked worker (some a) = do
  append_event a.workflow_execution_id a.id "activity.claimed" (claim_message worker a)
  commit
  pure (claim_of_row a)

unfoldable pub claim : String → String → Tx Claim
unfolding deferring_rollback begin statement lease_picked picked claim_picked
claim worker queue = deferring_rollback do
  begin
  row ← statement (λ p. lease_picked worker p (picked (p.driver.locked p.calls) queue p.view))
  claim_picked worker row
