-- ===== src/Engine/Claim.antt =====
-- Engine.Claim: the first ready activity of the queue, in the order of the ids.
pub mod Steps
pub mod Choice
pub mod Tokens
use durablego.Base.{
  ℕ, suc, ◌+◌, String, Bool, ◌&&◌, not, if◌then◌else◌, List, [], ◌∷◌, text_eq, concat, decimal,
  keys, is_le, compare_text,
}
use durablego.Types.{
  Activity, ActivityStatus, Claim, no_runnable_activity, Result, ok, err, is_ready,
}
use durablego.Engine.State.{
  Engine, M, pure, ◌>>=◌, ◌>>◌, modify, gets, read_clock, activity_at, set_activity, append_event,
  touch_workflow,
}

-- sort.Strings
unfoldable pub insert_sorted : String → List String → List String
insert_sorted s [] = s ∷ []
insert_sorted s (t ∷ ts) = if is_le (compare_text s t) then s ∷ t ∷ ts else t ∷ insert_sorted s ts

unfoldable pub sort_texts : List String → List String
unfolding insert_sorted
sort_texts [] = []
sort_texts (s ∷ ss) = insert_sorted s (sort_texts ss)

-- sortedActivityIDsLocked
unfoldable pub sorted_activity_ids : Engine → List String
unfolding sort_texts keys
sorted_activity_ids e = sort_texts (keys e.activities)

-- Both `continue` tests of the loop.
unfoldable pub claimable : String → Activity → Bool
claimable queue a =
    is_ready a.status
    && not (
        not (text_eq queue "") && not (text_eq a.task_queue "") && not (text_eq queue a.task_queue))

-- The row of a claimed activity.
unfoldable pub claimed : String → ℕ → Activity → Activity
claimed worker expires a = record a {
  status = ActivityStatus.running;
  attempt = suc a.attempt;
  lease_owner = worker;
  fencing_token = suc a.fencing_token;
  lease_expires_at = expires;
}

unfoldable pub claim_of : Activity → Claim
claim_of a = record {
  activity_id = a.id;
  workflow_id = a.workflow_id;
  name = a.name;
  attempt = a.attempt;
  fencing_token = a.fencing_token;
  lease_expires_at = a.lease_expires_at;
  application_key = concat a.workflow_id (concat ":" a.name);
}

claim_message : String → Activity → String
claim_message worker a =
    concat a.name
      (concat " claimed by " (concat worker (concat " token " (decimal a.fencing_token))))

take_lease : String → ℕ → String → Activity → M (Result Claim)
unfolding claimed claim_message claim_of
take_lease worker now id a = do
  ttl ← gets (λ e. e.lease_ttl)
  let a' = claimed worker (now + ttl) a
  modify (set_activity id a')
  modify (touch_workflow a'.workflow_id)
  modify (append_event a'.workflow_id a'.id "activity.claimed" (claim_message worker a'))
  pure (ok (claim_of a'))

claim_first : String → String → ℕ → List String → M (Result Claim)
unfolding take_lease claimable
claim_first worker queue now [] = pure (err no_runnable_activity)
claim_first worker queue now (id ∷ ids) = do
  a ← activity_at id
  if claimable queue a then take_lease worker now id a else claim_first worker queue now ids

unfoldable pub claim : String → String → M (Result Claim)
unfolding claim_first sorted_activity_ids
claim worker queue = do
  now ← read_clock
  ids ← gets sorted_activity_ids
  claim_first worker queue now ids
