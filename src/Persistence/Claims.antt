-- ===== src/Persistence/Claims.antt =====
-- What a claim of the Postgres backend grants.
pub mod Oldest
use durablego.Base.{
  concat, suc, ℕ, ◌+◌, ◌<◌, ◌≤◌, ◌*◌, ◌/◌, String, ◌≡◌, refl, sym, ap, subst, ◌∙◌, true, false,
  List, [], ◌∷◌, Option, none, some, In, All, All-In, filter, sort_by, sort_by-HeadIsLeast,
  sort_by-In, filter-In, HeadIsLeast, text_eq, text_eq_iff, find-map, mapped, arith,
}
use durablego.Types.{Claim, ActivityStatus}
use durablego.Engine.State.{second}
use durablego.Api.Backend.{good}
use durablego.Persistence.Tables.{ActivityRow, Tables, find_activity, update_where}
use durablego.Persistence.Session.{Driver, Postgres, deferring_rollback}
use durablego.Persistence.Helpers.{append_event, new_event}
use durablego.Persistence.Reads.{created_before}
use durablego.Persistence.Claim.{
  lease_interval, is_pickable, first_row, picked, leased, lease_picked, claim_of_row, claim_picked,
  claim,
}
use durablego.Persistence.Follows.{IsKeyed}
use durablego.Persistence.Follows.Changes.{updated, updated-id, event-Follows}
use durablego.Persistence.Ends.{
  Begun, Within, Ends, returns, raises, Ends-bind, Ends-weaken, statement-Ends, begin-Ends,
  commit-Ends, rolled_back-Ends, good-Ends,
}
use durablego.Persistence.Ends.Claim.{leased_id, picked-row, lease_picked-Follows}
use durablego.Persistence.History.Safety.{IsReady}
use durablego.Persistence.Fencing.{HoldsLease}
use durablego.Persistence.Claims.Oldest.{IsPickable, is_pickable-IsPickable, picked-oldest}

-- An event leaves the activities and the workflows.
record Logged (c : Tables) (p q : Postgres) : Type 0 where
  pub within : Within c q
  pub activities : q.view.activities ≡ p.view.activities
  pub workflows : q.view.workflows ≡ p.view.workflows
  pub started : q.started ≡ p.started

append_event-Logged :
    {c : Tables} (wid aid typ msg : String) (p : Postgres)
    → Within c p
    → Ends c (λ _. Logged c p) (append_event wid aid typ msg p)
unfolding append_event
append_event-Logged wid aid typ msg p w =
    Ends-weaken _ (statement-Ends _ p w (event-Follows p.view (new_event wid aid typ msg p)))
      (λ _ q s. record {
        within = s.within;
        activities = ap (λ (t : Tables). t.activities) s.view;
        workflows = ap (λ (t : Tables). t.workflows) s.view;
        started = s.started;
      })

-- A row that runs for the worker until `expires`, with one more attempt and the next token.
abbrev pub running_row : String → ℕ → ℕ → ActivityRow → ActivityRow
running_row worker now expires a = record a {
  status = ActivityStatus.running;
  attempt = suc a.attempt;
  lease_owner = some worker;
  fencing_token = suc a.fencing_token;
  lease_expires_at = some expires;
  heartbeat_at = some now;
  updated_at = now;
}

-- The claim that shows the row of which this was made.
abbrev pub shown_claim : ℕ → ActivityRow → Claim
shown_claim expires a = record {
  activity_id = a.id;
  workflow_id = a.workflow_execution_id;
  name = a.name;
  attempt = suc a.attempt;
  fencing_token = suc a.fencing_token;
  lease_expires_at = expires;
  application_key = concat a.workflow_execution_id (concat ":" a.name);
}

-- The claim `c` was granted on the tables that `p` had committed, and `q` is what it left: it is for a
-- row that is ready and of the queue, that nobody had locked, and that is one of the oldest of these.
-- It now runs for the worker, from the time at which the transaction began, for the whole seconds of the
-- lease, with one more attempt and a token that is one higher; no other row has changed.
pub record Granted (worker queue : String) (p : Postgres) (c : Claim) (q : Postgres) : Type 0 where
  pub row : ActivityRow
  pub found : find_activity row.id p.committed.activities ≡ some row
  pub pickable : IsPickable queue row
  pub unlocked : p.driver.locked (suc p.calls) row.id ≡ false
  pub oldest :
      (b : ActivityRow)
      → In b p.committed.activities
      → IsPickable queue b
      → p.driver.locked (suc p.calls) b.id ≡ false
      → row.created_at ≤ b.created_at
  pub claim : c ≡ shown_claim (p.driver.clock p.calls + (p.lease_ttl / second) * second) row
  pub activities :
      q.committed.activities
      ≡ update_where
          (λ (b : ActivityRow). text_eq b.id row.id)
          (running_row worker
            (p.driver.clock p.calls)
            (p.driver.clock p.calls + (p.lease_ttl / second) * second))
          p.committed.activities

leased-running_row :
    (worker : String) (now expires : ℕ) → leased worker now expires ≡ running_row worker now expires
unfolding leased
leased-running_row worker now expires = refl

claim_of_row-running_row :
    (worker : String) (now expires : ℕ) (a : ActivityRow)
    → claim_of_row (running_row worker now expires a) ≡ shown_claim expires a
unfolding claim_of_row
claim_of_row-running_row worker now expires a = refl

leased-same :
    (worker : String) (p q : Postgres) (now : ℕ)
    → q.started ≡ now
    → q.lease_ttl ≡ p.lease_ttl
    → leased worker q.started (q.started + lease_interval q)
      ≡ running_row worker now (now + (p.lease_ttl / second) * second)
leased-same worker p q now st ttl =
    leased-running_row worker q.started (q.started + lease_interval q)
    ∙ ap (λ n. running_row worker n (n + lease_interval q)) st
    ∙ ap (λ d. running_row worker now (now + (d / second) * second)) ttl

module _ (worker queue : String) (p : Postgres) (k : IsKeyed p.committed.activities) where
  claim_picked-Granted :
      (o : Option ActivityRow) (q s : Postgres)
      → q.view ≡ p.committed
      → q.started ≡ p.driver.clock p.calls
      → q.lease_ttl ≡ p.lease_ttl
      → picked (p.driver.locked (suc p.calls)) queue p.committed ≡ o
      → Within p.committed s
      → s.view ≡ (lease_picked worker q o).1
      → Ends p.committed
          (Granted worker queue p)
          (claim_picked worker (lease_picked worker q o).0 s)
  unfolding claim_picked lease_picked
  claim_picked-Granted none q s v st ttl h w e = raises w.base w.attempts
  claim_picked-Granted (some a) q s v st ttl h w e =
      let (i, pick, free) = picked-row (p.driver.locked (suc p.calls)) queue p.committed a h in
      let change = leased-same worker p q (p.driver.clock p.calls) st ttl in
      Ends-bind _ _ (append_event-Logged _ _ _ _ s w) (λ _ r l.
        Ends-bind _ _ (commit-Ends r l.within) (λ _ u done. returns (record {
          row = a;
          found = k a i;
          pickable = is_pickable-IsPickable queue a pick;
          unlocked = free;
          oldest = λ b m x y.
              picked-oldest (p.driver.locked (suc p.calls)) queue p.committed a h b m x y;
          claim =
              ap (λ (f : ActivityRow → ActivityRow). claim_of_row (f a)) change
              ∙ claim_of_row-running_row worker (p.driver.clock p.calls)
                  (p.driver.clock p.calls + (p.lease_ttl / second) * second) a;
          activities =
              ap (λ (t : Tables). t.activities) done.1
              ∙ l.activities
              ∙ ap (λ (t : Tables). t.activities) e
              ∙ ap (λ f. update_where (λ (b : ActivityRow). text_eq b.id a.id) f q.view.activities)
                  change
              ∙ ap
                  (λ (t : Tables).
                    update_where (λ (b : ActivityRow). text_eq b.id a.id)
                      (running_row worker (p.driver.clock p.calls)
                        (p.driver.clock p.calls + (p.lease_ttl / second) * second))
                      t.activities)
                  v;
        })))

  -- The statement picks from what is committed.
  seen :
      (q : Postgres)
      → Begun p.committed p q
      → picked (p.driver.locked (suc p.calls)) queue p.committed
        ≡ picked (q.driver.locked q.calls) queue q.view
  seen q b =
      ap (λ (d : Driver). picked (d.locked (suc p.calls)) queue p.committed) (sym b.driver)
      ∙ ap (λ n. picked (q.driver.locked n) queue p.committed) (sym b.calls)
      ∙ ap (picked (q.driver.locked q.calls) queue) (sym b.view)

  claim-Granted-Ends :
      0 < p.max_attempts → Ends p.committed (Granted worker queue p) (claim worker queue p)
  unfolding claim deferring_rollback
  claim-Granted-Ends m =
      rolled_back-Ends {Q = Granted worker queue p} _
        (Ends-bind _ _ (begin-Ends p m k) (λ _ q b.
          Ends-bind _ _
            (statement-Ends _ q b.within (
              lease_picked-Follows (q.driver.locked q.calls) worker queue q
                (picked (q.driver.locked q.calls) queue q.view)
                (b.within.follows.keyed b.within.keyed) refl))
            (λ o s st.
              subst
                (λ (x : Option ActivityRow).
                  Ends p.committed (Granted worker queue p) (claim_picked worker x s))
                (sym st.value)
                (claim_picked-Granted (picked (q.driver.locked q.calls) queue q.view) q s b.view
                  b.started b.lease_ttl (seen q b) st.within st.view))))
        (λ c q g. record {
          row = g.row;
          found = g.found;
          pickable = g.pickable;
          unlocked = g.unlocked;
          oldest = g.oldest;
          claim = g.claim;
          activities = g.activities;
        })

-- A claim that the Postgres backend returns is for one of the oldest of the rows that are ready, of its
-- queue, and not locked by another transaction; the committed row runs for the worker with the next
-- token, from the time at which the transaction began, for the whole seconds of the lease, the claim
-- carries that row's values, and every other row of the activities is as it was.
pub claim-Granted :
    (worker queue : String) (p q : Postgres) (c : Claim)
    → IsReady p
    → claim worker queue p ≡ (good c, q)
    → Granted worker queue p c q
claim-Granted worker queue p q c r e =
    good-Ends (claim worker queue p) c q (claim-Granted-Ends worker queue p r.keyed r.attempts) e

-- The granted row is found in what was committed.
leased_row-found :
    {worker queue : String} {p q : Postgres} {c : Claim} (g : Granted worker queue p c q)
    → find_activity g.row.id q.committed.activities
      ≡ some (
          running_row worker
            (p.driver.clock p.calls)
            (p.driver.clock p.calls + (p.lease_ttl / second) * second)
            g.row)
leased_row-found {worker} {p = p} g =
    let f : (ActivityRow → ActivityRow) =
      running_row worker (p.driver.clock p.calls)
        (p.driver.clock p.calls + (p.lease_ttl / second) * second) in
    let hit : text_eq g.row.id g.row.id ≡ true = ground (arith, text_eq_iff g.row.id g.row.id) in
    ap (find_activity g.row.id) g.activities
    ∙ find-map (λ (b : ActivityRow). text_eq b.id g.row.id)
        (updated (λ (b : ActivityRow). text_eq b.id g.row.id) f)
        (updated-id (λ (b : ActivityRow). text_eq b.id g.row.id) f (λ b. refl) g.row.id)
        p.committed.activities
    ∙ ap (mapped (updated (λ (b : ActivityRow). text_eq b.id g.row.id) f)) g.found
    ∙ rw hit refl

-- With a lease of less than a second, a claim of the Postgres backend is granted without a lease: when
-- the clock does not run backwards, the worker does not hold the activity when the next transaction
-- begins, although its claim has been returned.
pub short_lease-not-HoldsLease :
    (worker queue : String) (p q : Postgres) (c : Claim)
    → IsReady p
    → p.lease_ttl < second
    → claim worker queue p ≡ (good c, q)
    → p.driver.clock p.calls ≤ q.driver.clock q.calls
    → ¬ HoldsLease c.activity_id worker c.fencing_token q
short_lease-not-HoldsLease worker queue p q c r short e later
      (b, h, _, _, _, (x, deadline, early)) =
    let g = claim-Granted worker queue p q c r e in
    let gone : p.lease_ttl / second ≡ 0 = omega (arith, short) in
    let now = p.driver.clock p.calls in
    let until = now + (p.lease_ttl / second) * second in
    let same : c.activity_id ≡ g.row.id = ap (λ (k : Claim). k.activity_id) g.claim in
    let row : some b ≡ some (running_row worker now until g.row) =
      sym h ∙ ap (λ id. find_activity id q.committed.activities) same ∙ leased_row-found g in
    let this : b ≡ running_row worker now until g.row = ground arith in
    let x≡until : some x ≡ some until =
      sym deadline ∙ ap (λ (y : ActivityRow). y.lease_expires_at) this ∙ refl in
    let none_left : (p.lease_ttl / second) * second ≡ 0 = ap (λ n. n * second) gone in ground arith
