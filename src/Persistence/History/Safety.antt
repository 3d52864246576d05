-- ===== src/Persistence/History/Safety.antt =====
-- No call commits a part of its work, and each keeps the rows.
use durablego.Base.{
  ◌<◌, String, ◌≡◌, refl, ◌⊎◌, inl, inr, List, [], ◌∷◌, Option, none, some, ℤ, arith,
  positive_or_pos, Option-cases,
}
use durablego.Types.{stale_lease}
use durablego.Api.Backend.{Failure, known, Reply}
use durablego.Engine.History.{Call, starts, claims, heartbeats, completes, fails, cancels, passes}
use durablego.Persistence.Tables.{ActivityRow, Tables, find_activity, empty_tables}
use durablego.Persistence.Session.{Driver, Postgres, new_postgres}
use durablego.Persistence.Follows.{IsSound, IsKeyed, Follows, Follows-refl, Follows-trans}
use durablego.Persistence.Ends.{Committed, Ends, returns, raises, outdated, unsure, Landed}
use durablego.Persistence.Ends.Claim.{claim-Ends}
use durablego.Persistence.Ends.Lease.{heartbeat-Ends, complete-Ends, fail-Ends}
use durablego.Persistence.Ends.Cancel.{cancel-Ends, run_scheduler_pass-Ends}
use durablego.Persistence.Ends.Start.{start-Ends}
use durablego.Persistence.History.{outcome, serve, run}

-- Activities have one row for each id and every row is sound; the default of attempts is positive.
pub record IsReady (p : Postgres) : Type 0 where
  pub keyed : IsKeyed p.committed.activities
  pub sound :
      (id : String) (a : ActivityRow) → find_activity id p.committed.activities ≡ some a → IsSound a
  pub attempts : 0 < p.max_attempts

-- How a call ends: with no error, and what is committed follows what was; with the error of a stale lease,
-- and no row of an activity or a workflow has changed; with another error, and nothing has changed;
-- or with an error and a COMMIT that was reported as failed but took effect.
abbrev pub IsAtomic : Tables → Option Failure × Postgres → Type 0
IsAtomic c (err, q) =
    ((err ≡ none) × Follows c q.committed)
    ⊎ ((err ≡ some (known stale_lease))
        × (q.committed.activities ≡ c.activities)
        × (q.committed.workflows ≡ c.workflows)
        × Follows c q.committed)
    ⊎ (((x : Failure) × (err ≡ some x)) × (q.committed ≡ c))
    ⊎ (((x : Failure) × (err ≡ some x)) × Landed q × Follows c q.committed)

outcome-IsAtomic :
    {A : Type 0} {c : Tables} (r : Reply A × Postgres)
    → Ends c (λ _. Committed c) r
    → IsAtomic c (outcome r) × (0 < (outcome r).1.max_attempts)
outcome-IsAtomic _ (returns k) = (inl (refl, k.follows), k.attempts)
outcome-IsAtomic _ (raises {x} b m) = (inr (inr (inl ((x, refl), b))), m)
outcome-IsAtomic _ (outdated k a w) = (inr (inl (refl, a, w, k.follows)), k.attempts)
outcome-IsAtomic _ (unsure {x} _ k l) = (inr (inr (inr ((x, refl), l, k.follows))), k.attempts)

serve-both :
    (call : Call) (p : Postgres)
    → IsReady p
    → IsAtomic p.committed (serve call p) × (0 < (serve call p).1.max_attempts)
unfolding serve
serve-both (starts d key) p r = outcome-IsAtomic _ (start-Ends d key p r.attempts r.keyed)
serve-both (claims worker queue) p r =
    outcome-IsAtomic _ (claim-Ends worker queue p r.attempts r.keyed)
serve-both (heartbeats id worker token) p r =
    outcome-IsAtomic _ (heartbeat-Ends id worker token p r.attempts r.keyed)
serve-both (completes id worker token) p r =
    outcome-IsAtomic _ (complete-Ends id worker token p r.attempts r.keyed)
serve-both (fails id worker token retryable message) p r =
    outcome-IsAtomic _ (fail-Ends id worker token retryable message p r.attempts r.keyed)
serve-both (cancels wid) p r = outcome-IsAtomic _ (cancel-Ends wid p r.attempts r.keyed)
serve-both passes p r = outcome-IsAtomic _ (run_scheduler_pass-Ends p r.attempts r.keyed)

-- Whichever calls of the driver fail: a method of the Postgres backend that returns an error has changed
-- no activity and no workflow, and nothing at all unless the error is that of a stale lease, except where
-- its last call was a COMMIT that reported an error and took effect all the same; and in that case, and
-- where it returns no error, it has taken back nothing of what was committed.
pub serve-IsAtomic : (call : Call) (p : Postgres) → IsReady p → IsAtomic p.committed (serve call p)
serve-IsAtomic call p r = (serve-both call p r).0

pub IsAtomic-Follows :
    (c : Tables) (r : Option Failure × Postgres) → IsAtomic c r → Follows c r.1.committed
IsAtomic-Follows c r (inl (_, f)) = f
IsAtomic-Follows c r (inr (inl (_, _, _, f))) = f
IsAtomic-Follows c r (inr (inr (inl (_, same)))) = rw same (Follows-refl c)
IsAtomic-Follows c r (inr (inr (inr (_, _, f)))) = f

pub Follows-IsReady :
    (p q : Postgres) → IsReady p → Follows p.committed q.committed → 0 < q.max_attempts → IsReady q
Follows-IsReady p q r f m = record {
  keyed = f.keyed r.keyed;
  sound = λ id b h. elim (Option-cases (find_activity id p.committed.activities)) [
    | inl new ↦ f.fresh id b new h
    | inr (a, e) ↦
        let (b', h', k) = f.activity id a e in
        let same : b' ≡ b = ground arith in rw same at (k.sound (r.sound id a e))
  ];
  attempts = m;
}

pub serve-IsReady : (call : Call) (p : Postgres) → IsReady p → IsReady (serve call p).1
serve-IsReady call p r =
    let (a, m) = serve-both call p r in
    Follows-IsReady p (serve call p).1 r (IsAtomic-Follows p.committed (serve call p) a) m

-- Whatever calls are made and whichever of the driver's calls fail: every row keeps its identity, no
-- fencing token falls, an activity that had ended is as it ended, no event and no idempotency key is dropped; and
-- every activity's row is sound: within its attempts, with a deadline while it runs.
pub run-Follows :
    (cs : List Call) (p : Postgres)
    → IsReady p
    → Follows p.committed (run cs p).committed × IsReady (run cs p)
unfolding run
run-Follows [] p r = (Follows-refl p.committed, r)
run-Follows (c ∷ cs) p r =
    let q = (serve c p).1 in
    let (f, ready) = run-Follows cs q (serve-IsReady c p r) in
    (
      Follows-trans p.committed q.committed (run cs q).committed
          (IsAtomic-Follows p.committed (serve c p) (serve-IsAtomic c p r)) f,
      ready,
    )

-- The empty database of a new Postgres.
pub new_postgres-IsReady :
    (driver : Driver) (lease_ttl max_attempts : ℤ)
    → IsReady (new_postgres driver lease_ttl max_attempts empty_tables)
unfolding new_postgres
new_postgres-IsReady driver lease_ttl max_attempts = record {
  keyed = λ a m. absurd m;
  sound = λ id a h. absurd (cc);
  attempts = positive_or_pos max_attempts 3 (omega arith);
}
