-- ===== src/Persistence/RowChanges.antt =====
-- Each change that a statement of internal/persistence/postgres.go makes to a row of
-- activity_executions keeps the row.
use durablego.Base.{ℕ, ◌<◌, String, ◌≡◌, ◌≢◌, refl, ◌⊎◌, inl, inr, ltb, ℤ, arith, Bool-cases}
use durablego.Types.{ActivityStatus}
use durablego.Spec.Later.{HasEnded}
use durablego.Persistence.Tables.{ActivityRow}
use durablego.Persistence.Session.{Postgres}
use durablego.Persistence.Helpers.{made_ready}
use durablego.Persistence.Claim.{leased}
use durablego.Persistence.Lease.{extended, completed, retried, failed}
use durablego.Persistence.Cancel.{made_cancelled, expired}
use durablego.Persistence.Follows.{IsSound, RowKept}

-- A change of the columns that an UPDATE sets, other than a claim's.
module _ (a b : ActivityRow) where
  -- A change to a status other than running.
  pub put_down-RowKept :
      b.id ≡ a.id
      → b.workflow_execution_id ≡ a.workflow_execution_id
      → b.name ≡ a.name
      → b.task_queue ≡ a.task_queue
      → b.max_attempts ≡ a.max_attempts
      → b.created_at ≡ a.created_at
      → b.fencing_token ≡ a.fencing_token
      → b.attempt ≡ a.attempt
      → (HasEnded a.status → b.status ≡ a.status)
      → b.status ≢ ActivityStatus.running
      → (IsSound a
          → (b.status ≡ ActivityStatus.ready) ⊎ (b.status ≡ ActivityStatus.retry_pending)
          → a.attempt < a.max_attempts)
      → RowKept a b
  put_down-RowKept i w n q m c t at e idle spare = record {
    same_id = i;
    same_workflow = w;
    same_name = n;
    same_queue = q;
    same_max = m;
    same_created = c;
    token_grows = omega (arith, t);
    ended = e;
    lease_lost = λ _ r. absurd (idle r);
    sound = λ s. record {
      deadline = λ r. absurd (idle r);
      attempts = omega (arith, s.attempts, m, at);
      spare = λ h. omega (arith, spare s h, m, at);
    };
  }

pub leased-RowKept :
    (worker : String) (now expires : ℕ) (a : ActivityRow)
    → a.status ≡ ActivityStatus.ready
    → RowKept a (leased worker now expires a)
unfolding leased
leased-RowKept worker now expires a h = record {
  same_id = refl;
  same_workflow = refl;
  same_name = refl;
  same_queue = refl;
  same_max = refl;
  same_created = refl;
  token_grows = omega arith;
  ended = λ e. ground arith;
  lease_lost = λ t r. absurd (ground arith);
  sound = λ s. record {
    deadline = λ r. (expires, refl);
    attempts = omega (arith, s.spare (inl h));
    spare = λ w. absurd (ground arith);
  };
}

pub extended-RowKept :
    (p : Postgres) (a : ActivityRow) → a.status ≡ ActivityStatus.running → RowKept a (extended p a)
extended-RowKept p a h = record {
  same_id = refl;
  same_workflow = refl;
  same_name = refl;
  same_queue = refl;
  same_max = refl;
  same_created = refl;
  token_grows = omega arith;
  ended = λ e. refl;
  lease_lost = λ t r. (r, refl);
  sound = λ s. record { deadline = λ r. (_, refl); attempts = s.attempts; spare = s.spare };
}

pub completed-RowKept :
    (p : Postgres) (a : ActivityRow) → a.status ≡ ActivityStatus.running → RowKept a (completed p a)
completed-RowKept p a h =
    put_down-RowKept a (completed p a) refl refl refl refl refl refl refl refl
      (λ e. absurd (ground arith)) (λ r. cc) (λ s w. absurd (ground arith))

pub failed-RowKept :
    (message : String) (p : Postgres) (a : ActivityRow)
    → a.status ≡ ActivityStatus.running
    → RowKept a (failed message p a)
unfolding failed
failed-RowKept message p a h =
    put_down-RowKept a (failed message p a) refl refl refl refl refl refl refl refl
      (λ e. absurd (ground arith)) (λ r. cc) (λ s w. absurd (ground arith))

pub retried-RowKept :
    (backoff : ℤ) (message : String) (p : Postgres) (a : ActivityRow)
    → a.status ≡ ActivityStatus.running
    → a.attempt < a.max_attempts
    → RowKept a (retried backoff message p a)
unfolding retried
retried-RowKept backoff message p a h room =
    put_down-RowKept a (retried backoff message p a) refl refl refl refl refl refl refl refl
      (λ e. absurd (ground arith)) (λ r. cc) (λ s w. room)

pub made_ready-RowKept :
    (now : ℕ) (a : ActivityRow)
    → a.status ≡ ActivityStatus.retry_pending
    → RowKept a (made_ready now a)
made_ready-RowKept now a h =
    put_down-RowKept a (made_ready now a) refl refl refl refl refl refl refl refl
      (λ e. absurd (ground arith)) (λ r. cc) (λ s w. s.spare (inr h))

pub made_cancelled-RowKept :
    (now : ℕ) (a : ActivityRow)
    → (a.status ≡ ActivityStatus.ready) ⊎ (a.status ≡ ActivityStatus.retry_pending)
    → RowKept a (made_cancelled now a)
made_cancelled-RowKept now a h =
    put_down-RowKept a (made_cancelled now a) refl refl refl refl refl refl refl refl
      (λ e. absurd (ground arith)) (λ r. cc) (λ s w. absurd (ground arith))

pub expired-RowKept :
    (now : ℕ) (a : ActivityRow) → a.status ≡ ActivityStatus.running → RowKept a (expired now a)
unfolding expired
expired-RowKept now a h = elim (Bool-cases (ltb a.attempt a.max_attempts)) [
  | inl room ↦
      put_down-RowKept a (expired now a) refl refl refl refl refl refl refl refl
        (λ e. absurd (ground arith)) (λ r. absurd (ground arith)) (λ s w. ground arith)
  | inr none_left ↦
      put_down-RowKept a (expired now a) refl refl refl refl refl refl refl refl
        (λ e. absurd (ground arith)) (λ r. absurd (ground arith)) (λ s w. absurd (ground arith))
]
