-- ===== src/Persistence/Ends/Rows.antt =====
-- A statement that changes one row, by its id, does what `Follows` allows.
use durablego.Base.{
  Bool-cases, String, ◌≡◌, sym, ap, ◌∙◌, inl, inr, true, List, some, text_eq, text_eq_iff, arith,
  Option-cases, find-test,
}
use durablego.Persistence.Tables.{ActivityRow, Tables, find_activity, update_where}
use durablego.Persistence.Session.{commit_met, Postgres, statement, commit, driver_call, met}
use durablego.Persistence.Helpers.{append_event}
use durablego.Persistence.Lease.{update_activity}
use durablego.Persistence.Follows.{Follows, Follows-refl, Follows-trans, RowKept}
use durablego.Persistence.Follows.Changes.{map-Follows, event-Follows}
use durablego.Persistence.Ends.{Within, Committed, Ends, Ends-weaken, statement-Ends, commit-Ends}

pub commits : {c : Tables} (p : Postgres) → Within c p → Ends c (λ _. Committed c) (commit p)
commits p w = Ends-weaken _ (commit-Ends p w) (λ _ q h. h.0)

-- Two rows that are found, the second under the first one's id, are one.
pub same_row :
    (id j : String) (b a : ActivityRow) (rows : List ActivityRow)
    → find_activity j rows ≡ some b
    → text_eq b.id id ≡ true
    → find_activity id rows ≡ some a
    → b ≡ a
same_row id j b a rows hb hit h =
    let found : b.id ≡ j =
      (text_eq_iff b.id j).0 (find-test (λ (x : ActivityRow). text_eq x.id j) rows b hb) in
    let j≡id : j ≡ id = sym found ∙ (text_eq_iff b.id id).0 hit in
    let e : some b ≡ some a = sym hb ∙ ap (λ i. find_activity i rows) j≡id ∙ h in ground arith

-- A change of the row with the id.
pub one_row-Follows :
    (id : String) (f : ActivityRow → ActivityRow) (t : Tables) (a : ActivityRow)
    → ((b : ActivityRow) → (f b).id ≡ b.id)
    → find_activity id t.activities ≡ some a
    → RowKept a (f a)
    → Follows t (record t { activities = update_where (λ b. text_eq b.id id) f t.activities })
one_row-Follows id f t a ids h kept =
    map-Follows t (λ b. text_eq b.id id) f ids
      (λ j b hb hit. let b≡a : b ≡ a = same_row id j b a t.activities hb hit h in rw b≡a kept)

pub update_activity-Ends :
    {c : Tables} (id : String) (change : Postgres → ActivityRow → ActivityRow) (p : Postgres)
    (a : ActivityRow)
    → ((b : ActivityRow) → (change p b).id ≡ b.id)
    → find_activity id p.view.activities ≡ some a
    → RowKept a (change p a)
    → Within c p
    → Ends c (λ _. Within c) (update_activity id change p)
unfolding update_activity
update_activity-Ends id change p a ids h kept w =
    Ends-weaken _ (statement-Ends _ p w (one_row-Follows id (change p) p.view a ids h kept))
      (λ _ q s. s.within)

pub append_event-Within :
    {c : Tables} (wid aid typ msg : String) (p : Postgres)
    → Within c p
    → Within c (append_event wid aid typ msg p).1
unfolding append_event statement driver_call met
append_event-Within wid aid typ msg p w = elim (Option-cases (p.driver.fault p.calls)) [
  | inl fine ↦ rw fine (record {
    base = w.base;
    follows = Follows-trans _ p.view _ w.follows (event-Follows p.view _);
    keyed = w.keyed;
    attempts = w.attempts;
  })
  | inr (text, e) ↦
      rw e (record { base = w.base; follows = w.follows; keyed = w.keyed; attempts = w.attempts })
]

pub commit-Committed : {c : Tables} (p : Postgres) → Within c p → Committed c (commit p).1
unfolding commit commit_met
commit-Committed {c} p w = elim (Option-cases (p.driver.fault p.calls)) [
  | inl fine ↦ rw fine (record { follows = w.follows; attempts = w.attempts })
  | inr (text, e) ↦ elim (Bool-cases (p.driver.lands p.calls)) [
    | inl landed ↦ rw (e, landed) (record { follows = w.follows; attempts = w.attempts })
    | inr lost ↦
        rw (e, lost) (record { follows = rw w.base (Follows-refl c); attempts = w.attempts })
  ]
]

pub forgotten :
    {c : Tables} (q : Postgres) → Committed c q → Committed c (record q { view = q.committed })
forgotten q k = record { follows = k.follows; attempts = k.attempts }
