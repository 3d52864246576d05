-- ===== src/Persistence/Ends/Claim.antt =====
-- Claim commits only what `Follows` allows, or nothing.
use durablego.Base.{
  Bool, false, ℕ, ◌+◌, ◌<◌, String, ◌≡◌, refl, inl, true, List, [], ◌∷◌, Option, none, some,
  text_eq, filter, In, In-filter, In-sort_by, arith,
}
use durablego.Types.{ActivityStatus}
use durablego.Persistence.Tables.{ActivityRow, Tables, update_where}
use durablego.Persistence.Session.{Postgres, deferring_rollback}
use durablego.Persistence.Reads.{created_before}
use durablego.Persistence.Claim.{
  is_pickable, is_free, picked, leased, lease_picked, claim_picked, claim, first_row,
  lease_interval,
}
use durablego.Persistence.Follows.{IsKeyed, Follows, Follows-refl}
use durablego.Persistence.Follows.Changes.{map-Follows}
use durablego.Persistence.RowChanges.{leased-RowKept}
use durablego.Persistence.Ends.{
  Within, Committed, Ends, returns, raises, Ends-bind, statement-Ends, begin-Ends, rolled_back-Ends,
}
use durablego.Persistence.Ends.Helpers.{append_event-Ends}
use durablego.Persistence.Ends.Rows.{commits, same_row, forgotten}

first_row-In : (rows : List ActivityRow) (a : ActivityRow) → first_row rows ≡ some a → In a rows
first_row-In [] a h = absurd (cc)
first_row-In (b ∷ rows) a h = inl (ground arith)

-- The first row of a sorted and filtered list is one of the list, and passes.
pub picked-row :
    (locked : String → Bool) (queue : String) (t : Tables) (a : ActivityRow)
    → picked locked queue t ≡ some a
    → In a t.activities × (is_pickable queue a ≡ true) × (locked a.id ≡ false)
unfolding picked
picked-row locked queue t a h =
    let (i, p) = In-filter (is_free locked queue) t.activities a (
      In-sort_by created_before (filter (is_free locked queue) t.activities) a
        (first_row-In _ a h)) in
    (i, ground (arith, p), ground (arith, p))

pub leased_id :
    (worker : String) (now expires : ℕ) (a : ActivityRow) → (leased worker now expires a).id ≡ a.id
unfolding leased
leased_id worker now expires a = refl

pickable_ready :
    (queue : String) (a : ActivityRow)
    → is_pickable queue a ≡ true
    → a.status ≡ ActivityStatus.ready
unfolding is_pickable
pickable_ready queue a h = ground arith

claim_picked-Ends :
    {c : Tables} (worker : String) (o : Option ActivityRow) (p : Postgres)
    → Within c p
    → Ends c (λ _. Committed c) (claim_picked worker o p)
unfolding claim_picked
claim_picked-Ends worker none p w = raises w.base w.attempts
claim_picked-Ends worker (some a) p w =
    Ends-bind _ _ (append_event-Ends _ _ _ _ p w)
      (λ _ q v. Ends-bind _ _ (commits q v) (λ _ s k. returns k))

-- The UPDATE changes only the picked row, which is ready.
leased_row-Follows :
    (locked : String → Bool) (worker queue : String) (now expires : ℕ) (t : Tables)
    (a : ActivityRow)
    → IsKeyed t.activities
    → picked locked queue t ≡ some a
    → Follows t (record t {
      activities = update_where (λ b. text_eq b.id a.id) (leased worker now expires) t.activities;
    })
leased_row-Follows locked worker queue now expires t a keyed h =
    let (i, p, _) = picked-row locked queue t a h in
    map-Follows t (λ b. text_eq b.id a.id) (leased worker now expires)
      (λ b. leased_id worker now expires b)
      (λ j b hb hit.
        let b≡a : b ≡ a = same_row a.id j b a t.activities hb hit (keyed a i) in
        rw b≡a (leased-RowKept worker now expires a (pickable_ready queue a p)))

pub lease_picked-Follows :
    (locked : String → Bool) (worker queue : String) (p : Postgres) (o : Option ActivityRow)
    → IsKeyed p.view.activities
    → picked locked queue p.view ≡ o
    → Follows p.view (lease_picked worker p o).1
unfolding lease_picked
lease_picked-Follows locked worker queue p none k h = Follows-refl p.view
lease_picked-Follows locked worker queue p (some a) k h =
    leased_row-Follows locked worker queue p.started (p.started + lease_interval p) p.view a k h

pub claim-Ends :
    (worker queue : String) (p : Postgres)
    → 0 < p.max_attempts
    → IsKeyed p.committed.activities
    → Ends p.committed (λ _. Committed p.committed) (claim worker queue p)
unfolding claim deferring_rollback
claim-Ends worker queue p m k =
    rolled_back-Ends _
      (Ends-bind _ _ (begin-Ends p m k) (λ _ q b.
        Ends-bind _ _
          (statement-Ends _ q b.within (
            lease_picked-Follows (q.driver.locked q.calls) worker queue q
              (picked (q.driver.locked q.calls) queue q.view)
              (b.within.follows.keyed b.within.keyed) refl))
          (λ o s st. claim_picked-Ends worker o s st.within)))
      (λ _. forgotten)
