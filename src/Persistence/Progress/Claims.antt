-- ===== src/Persistence/Progress/Claims.antt =====
-- With no fault, the Postgres backend claims what may be picked.
use durablego.Base.{
  Bool, suc, false, arith, String, ◌≡◌, refl, ap, ◌∙◌, List, [], ◌∷◌, Option, some, In, filter,
  filter-In, sort_by, sort_by-In,
}
use durablego.Persistence.Tables.{ActivityRow, Tables}
use durablego.Persistence.Session.{Driver, Postgres, deferring_rollback}
use durablego.Persistence.Reads.{created_before}
use durablego.Persistence.Claim.{is_free, first_row, picked, lease_picked, claim_picked, claim}
use durablego.Persistence.Claims.Oldest.{IsPickable, is_pickable-of_IsPickable}
use durablego.Persistence.Progress.{
  IsFaultless, Yields, IsAccepted, Yields-bind, Yields-IsAccepted, statement-Yields, begin-Yields,
  commit-Yields, append_event-Yields, yields,
}

picked_row :
    (locked : String → Bool) (queue : String) (t : Tables) (b : ActivityRow)
    → In b t.activities
    → IsPickable queue b
    → locked b.id ≡ false
    → (a : ActivityRow) × (picked locked queue t ≡ some a)
unfolding picked
picked_row locked queue t b i h free =
    nonempty (sort_by created_before (filter (is_free locked queue) t.activities)) (
      sort_by-In created_before (filter (is_free locked queue) t.activities) b (
        filter-In (is_free locked queue) t.activities b i
          (ground (arith, is_pickable-of_IsPickable queue b h, free))))
  where
    nonempty : (rows : List ActivityRow) → In b rows → (a : ActivityRow) × (first_row rows ≡ some a)
    nonempty [] m = absurd m
    nonempty (a ∷ _) m = (a, refl)

claim_picked-Yields :
    (worker : String) (q : Postgres) (a : ActivityRow) (p : Postgres)
    → IsFaultless p
    → Yields (λ _. IsFaultless) (claim_picked worker (lease_picked worker q (some a)).0 p)
unfolding claim_picked lease_picked
claim_picked-Yields worker q a p h =
    Yields-bind _ _ (append_event-Yields _ _ _ _ p h)
      (λ _ r x. Yields-bind _ _ (commit-Yields r x) (λ _ s y. yields y))

-- With no fault, Claim of the Postgres backend returns a claim whenever some row is ready, of the
-- queue, and not locked by another transaction when the UPDATE runs.
pub claim-IsAccepted :
    (worker queue : String) (p : Postgres) (b : ActivityRow)
    → IsFaultless p
    → In b p.committed.activities
    → IsPickable queue b
    → p.driver.locked (suc p.calls) b.id ≡ false
    → IsAccepted (claim worker queue p).0
unfolding claim deferring_rollback
claim-IsAccepted worker queue p b fine i h free =
    let (a, found) = picked_row (p.driver.locked (suc p.calls)) queue p.committed b i h free in
    Yields-IsAccepted {Q = λ _. IsFaultless} _ (
      Yields-bind _ _ (begin-Yields p fine) (λ _ q v.
        Yields-bind _ _ (statement-Yields _ q v.0) (λ o s d.
          let seen : picked (q.driver.locked q.calls) queue q.view ≡ some a =
            ap (picked (q.driver.locked q.calls) queue) v.1
            ∙ ap (λ n. picked (q.driver.locked n) queue p.committed) v.4
            ∙ ap (λ (d : Driver). picked (d.locked (suc p.calls)) queue p.committed) v.3
            ∙ found in
          let value : o ≡ (lease_picked worker q (some a)).0 =
            d.value ∙ ap (λ (x : Option ActivityRow). (lease_picked worker q x).0) seen in
          rw value (claim_picked-Yields worker q a s d.faultless))))
