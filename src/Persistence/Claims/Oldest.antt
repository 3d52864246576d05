-- ===== src/Persistence/Claims/Oldest.antt =====
-- The row that the SELECT of Claim picks is one of the oldest.
use durablego.Base.{
  Bool, ◌⊎◌, inl, inr, text_eq, text_eq_iff, Bool-cases, ◌≤◌, String, ◌≡◌, subst, true, false, List,
  [], ◌∷◌, some, In, All, All-In, filter, sort_by, sort_by-HeadIsLeast, sort_by-In, filter-In,
  HeadIsLeast, arith,
}
use durablego.Types.{ActivityStatus}
use durablego.Persistence.Tables.{ActivityRow, Tables}
use durablego.Persistence.Reads.{created_before}
use durablego.Persistence.Claim.{is_pickable, is_free, first_row, picked}

created_before-le : (a b : ActivityRow) → created_before b a ≡ true → b.created_at ≤ a.created_at
unfolding created_before
created_before-le a b h = ground arith

not_before-le : (a b : ActivityRow) → created_before b a ≡ false → a.created_at ≤ b.created_at
unfolding created_before
not_before-le a b h = ground arith

first_row-least :
    (rows : List ActivityRow) (a : ActivityRow)
    → HeadIsLeast created_before (λ (x : ActivityRow). x.created_at) rows
    → first_row rows ≡ some a
    → All (λ (b : ActivityRow). a.created_at ≤ b.created_at) rows
first_row-least [] a h e = absurd (cc)
first_row-least (b ∷ rows) a h e =
    let same : b ≡ a = ground arith in
    subst (λ (x : ActivityRow). All (λ (y : ActivityRow). x.created_at ≤ y.created_at) (b ∷ rows))
      same h

-- The row is ready, and of the queue, where both name one.
abbrev pub IsPickable : String → ActivityRow → Type 0
IsPickable queue a =
    (a.status ≡ ActivityStatus.ready)
    × ((queue ≡ "") ⊎ (a.task_queue ≡ "") ⊎ (a.task_queue ≡ queue))

pub is_pickable-IsPickable :
    (queue : String) (a : ActivityRow) → is_pickable queue a ≡ true → IsPickable queue a
unfolding is_pickable
is_pickable-IsPickable queue a h = (
  ground arith,
  elim (Bool-cases (text_eq queue "")) [
    | inl e ↦ inl ((text_eq_iff queue "").0 e)
    | inr e ↦ elim (Bool-cases (text_eq a.task_queue "")) [
      | inl f ↦ inr (inl ((text_eq_iff a.task_queue "").0 f))
      | inr f ↦ inr (inr ((text_eq_iff a.task_queue queue).0 (ground arith)))
    ]
  ],
)

pub is_pickable-of_IsPickable :
    (queue : String) (a : ActivityRow) → IsPickable queue a → is_pickable queue a ≡ true
unfolding is_pickable
is_pickable-of_IsPickable queue a (h, inl e) = ground (arith, (text_eq_iff queue "").1 e)
is_pickable-of_IsPickable queue a (h, inr (inl e)) =
    ground (arith, (text_eq_iff a.task_queue "").1 e)
is_pickable-of_IsPickable queue a (h, inr (inr e)) =
    ground (arith, (text_eq_iff a.task_queue queue).1 e)

-- The picked row is one of the oldest that may be picked.
pub picked-oldest :
    (locked : String → Bool) (queue : String) (t : Tables) (a : ActivityRow)
    → picked locked queue t ≡ some a
    → (b : ActivityRow) → In b t.activities
    → IsPickable queue b
    → locked b.id ≡ false
    → a.created_at ≤ b.created_at
unfolding picked
picked-oldest locked queue t a h b m p free =
    All-In _ _
      (first_row-least (sort_by created_before (filter (is_free locked queue) t.activities)) a
        (sort_by-HeadIsLeast created_before (λ (x : ActivityRow). x.created_at)
          (λ x y. created_before-le x y) (λ x y. not_before-le x y)
          (filter (is_free locked queue) t.activities))
        h)
      b
      (sort_by-In created_before (filter (is_free locked queue) t.activities) b (
        filter-In (is_free locked queue) t.activities b m
          (ground (arith, is_pickable-of_IsPickable queue b p, free))))
