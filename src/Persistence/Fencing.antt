-- ===== src/Persistence/Fencing.antt =====
-- Fencing by the Postgres backend: only the holder of the live lease gets anything done, and a lease
-- that is lost stays lost.
use durablego.Base.{
  ℕ, ◌<◌, String, ◌≡◌, ◌≢◌, refl, sym, ap, ◌∙◌, ◌⊎◌, Bool, true, List, Option, none, some,
  text_eq_iff, arith,
}
use durablego.Types.{Activity, ActivityStatus}
use durablego.Api.Backend.{Failure, Reply, bad}
use durablego.Engine.History.{Call}
use durablego.Persistence.Tables.{ActivityRow, Tables, find_activity}
use durablego.Persistence.Session.{Postgres, Tx}
use durablego.Persistence.Helpers.{scanned, text_or_empty, lease_ahead, current_lease}
use durablego.Persistence.Lease.{with_lease, heartbeat, extend, complete, finish, fail, give_up}
use durablego.Persistence.Follows.{RowKept, Follows}
use durablego.Persistence.Ends.{EndsIf, unsure, returns, raises, outdated}
use durablego.Persistence.Ends.Lease.{with_lease-Ends}
use durablego.Persistence.History.{run}
use durablego.Persistence.History.Safety.{IsReady, run-Follows}

-- At the time at which the next transaction begins, the worker holds the activity's live lease.
abbrev pub HoldsLease : String → String → ℕ → Postgres → Type 0
HoldsLease id worker token p =
    (a : ActivityRow) × (find_activity id p.committed.activities ≡ some a)
    × (a.status ≡ ActivityStatus.running)
    × (text_or_empty a.lease_owner ≡ worker)
    × (a.fencing_token ≡ token)
    × ((e : ℕ) × (a.lease_expires_at ≡ some e) × (p.driver.clock p.calls < e))

-- The call returned an error, and no activity and no workflow has changed.
abbrev pub Rejects : Tx (Unit {0}) → Postgres → Type 0
Rejects m p =
    (x : Failure) × (q : Postgres) × (m p ≡ (bad x, q))
    × (q.committed.activities ≡ p.committed.activities)
    × (q.committed.workflows ≡ p.committed.workflows)

held_row :
    (a : Activity) (row : ActivityRow) (worker : String) (token now : ℕ) (live : Bool)
    → a ≡ scanned row
    → row.status ≡ ActivityStatus.running
    → lease_ahead now row.lease_expires_at ≡ some live
    → current_lease a worker token ≡ true
    → live ≡ true
    → (text_or_empty row.lease_owner ≡ worker)
      × (row.fencing_token ≡ token)
      × ((e : ℕ) × (row.lease_expires_at ≡ some e) × (now < e))
unfolding current_lease scanned
held_row a row worker token now live e runs ahead held on =
    let h : current_lease (scanned row) worker token ≡ true = rw e at held in
    (
      ground (arith, text_eq_iff (text_or_empty row.lease_owner) worker),
      ground arith,
      deadline row.lease_expires_at (ahead ∙ ap some on),
    )
  where
    deadline : (o : Option ℕ) → lease_ahead now o ≡ some true → (x : ℕ) × (o ≡ some x) × (now < x)
    deadline none h = absurd (ground arith)
    deadline (some x) h = (x, refl, ground arith)

Rejects-of_Ends :
    (m : Tx (Unit {0})) (p : Postgres) → EndsIf ⊥ p.committed (λ _ _. ⊥) (m p) → Rejects m p
Rejects-of_Ends m p h = by_end (m p) h
  where
    by_end :
        (r : Reply (Unit {0}) × Postgres)
        → EndsIf ⊥ p.committed (λ _ _. ⊥) r
        → (x : Failure) × (q : Postgres) × (r ≡ (bad x, q))
          × (q.committed.activities ≡ p.committed.activities)
          × (q.committed.workflows ≡ p.committed.workflows)
    by_end _ (returns q) = absurd q
    by_end _ (raises {x} {p = q} b _) =
        (x, q, refl, ap (λ (t : Tables). t.activities) b, ap (λ (t : Tables). t.workflows) b)
    by_end _ (outdated {p = q} _ a w) = (_, q, refl, a, w)
    by_end _ (unsure never _ _) = absurd never

module _ (id worker : String) (token : ℕ) (p : Postgres) where
  shut_out :
      (typ msg : String) (act : Activity → Tx (Unit {0}))
      → IsReady p
      → ¬ HoldsLease id worker token p
      → Rejects (with_lease id worker token typ msg act) p
  shut_out typ msg act r n = Rejects-of_Ends (with_lease id worker token typ msg act) p (
      with_lease-Ends id worker token typ msg act p r.attempts r.keyed (λ _ _ x. x)
        (λ l q k held.
          let (owner, same, deadline) =
            held_row l.0 k.row worker token q.started l.1 k.value k.runs k.current held.0 held.1 in
          let (e, he, early) = deadline in
          absurd (
            n (
              k.row,
              ap (λ (t : Tables). find_activity id t.activities) (sym k.view) ∙ k.found,
              k.runs,
              owner,
              same,
              (e, he, ground (arith, k.started)),
            ))))

-- Whoever does not hold the live lease when a transaction begins is rejected by Heartbeat, Complete and
-- Fail of the Postgres backend, whichever calls of the driver fail: an error is returned, and no
-- activity and no workflow changes.
pub only_holders_heard :
    (id worker : String) (token : ℕ) (retryable : Bool) (message : String) (p : Postgres)
    → IsReady p
    → ¬ HoldsLease id worker token p
    → Rejects (heartbeat id worker token) p
      × Rejects (complete id worker token) p
      × Rejects (fail id worker token retryable message) p
unfolding heartbeat complete fail
only_holders_heard id worker token retryable message p r n = (
  shut_out id worker token p _ _ (extend id worker) r n,
  shut_out id worker token p _ _ (finish id) r n,
  shut_out id worker token p _ _ (give_up id retryable message) r n,
)

-- The token has been overtaken by a later claim, or its activity no longer runs.
abbrev pub IsLost : String → ℕ → Postgres → Type 0
IsLost id token p =
    (a : ActivityRow) × (find_activity id p.committed.activities ≡ some a)
    × ((token < a.fencing_token)
        ⊎ ((a.fencing_token ≡ token) × (a.status ≢ ActivityStatus.running)))

lost-not-HoldsLease :
    (id worker : String) (token : ℕ) (p q : Postgres)
    → Follows p.committed q.committed
    → IsLost id token p
    → ¬ HoldsLease id worker token q
lost-not-HoldsLease id worker token p q f (a, h, lost) (b, k, runs, _, same, _) =
    let (b', h', kept) = f.activity id a h in
    let b≡b' : b ≡ b' = ground arith in absurd (gone kept (rw b≡b' at runs) (rw b≡b' at same))
  where
    gone :
        {b' : ActivityRow}
        → RowKept a b'
        → b'.status ≡ ActivityStatus.running
        → b'.fencing_token ≡ token
        → ⊥
    gone kept runs same = ground (arith, kept.token_grows, kept.lease_lost)

-- A worker whose lease was lost stays shut out of the Postgres backend: after any further history, in
-- which any calls of the driver may fail, its heartbeats, completions and failures under that token
-- return errors, and change no activity and no workflow.
pub pg_lost_lease_stays_lost :
    (id worker : String) (token : ℕ) (retryable : Bool) (message : String) (cs : List Call)
    (p : Postgres)
    → IsReady p
    → IsLost id token p
    → Rejects (heartbeat id worker token) (run cs p)
      × Rejects (complete id worker token) (run cs p)
      × Rejects (fail id worker token retryable message) (run cs p)
pg_lost_lease_stays_lost id worker token retryable message cs p r lost =
    let (f, ready) = run-Follows cs p r in
    only_holders_heard id worker token retryable message (run cs p) ready
      (lost-not-HoldsLease id worker token p (run cs p) f lost)
