-- ===== src/Engine/Claim/Steps.antt =====
-- Claim runs to its end by lawful steps.
use durablego.Base.{
  ℕ, ◌+◌, String, ◌≡◌, ◌⊎◌, inl, inr, true, List, [], ◌∷◌, some, get, keys, In, In-keys,
  In-keys_of_get, All, All-of_In, arith, Bool-cases, is_le, compare_text,
}
use durablego.Types.{Activity, ActivityStatus}
use durablego.Engine.State.{Engine, ◌>>=◌, try_gets, tick}
use durablego.Engine.Claim.{
  insert_sorted, sort_texts, sorted_activity_ids, claimable, claimed, take_lease, claim_first,
  claim as claim_activity,
}
use durablego.Spec.Move.{change, claim}
use durablego.Engine.Steps.{read, log, move, here, Steps-one}
use durablego.Engine.Steps.Lawful.{Lawful, lawful, Lawful-from, touch_workflow-Steps}

-- Sorting adds no id.
In-insert_sorted : (x s : String) (ts : List String) → In x (insert_sorted s ts) → (x ≡ s) ⊎ In x ts
unfolding insert_sorted
In-insert_sorted x s [] m = m
In-insert_sorted x s (t ∷ ts) m = elim (Bool-cases (is_le (compare_text s t))) [
  | inl le ↦ rw le at m
  | inr gt ↦ swapped (In-insert_sorted x s ts) (rw gt at m)
]
  where
    swapped :
        (In x (insert_sorted s ts) → (x ≡ s) ⊎ In x ts)
        → In x (t ∷ insert_sorted s ts)
        → (x ≡ s) ⊎ In x (t ∷ ts)
    swapped rec (inl e) = inr (inl e)
    swapped rec (inr n) = elim (rec n) [ inl e ↦ inl e | inr o ↦ inr (inr o) ]

In-sort_texts : (x : String) (ss : List String) → In x (sort_texts ss) → In x ss
unfolding sort_texts
In-sort_texts x [] m = m
In-sort_texts x (s ∷ ss) m = elim (In-insert_sorted x s (sort_texts ss) m) [
  | inl e ↦ inl e
  | inr n ↦ inr (In-sort_texts x ss n)
]

-- Sorting loses no id.
insert_sorted-In : (x s : String) (ts : List String) → (x ≡ s) ⊎ In x ts → In x (insert_sorted s ts)
unfolding insert_sorted
insert_sorted-In x s [] m = m
insert_sorted-In x s (t ∷ ts) m = elim (Bool-cases (is_le (compare_text s t))) [
  | inl le ↦ rw le m
  | inr gt ↦ rw gt (swapped (insert_sorted-In x s ts) m)
]
  where
    swapped :
        ((x ≡ s) ⊎ In x ts → In x (insert_sorted s ts))
        → (x ≡ s) ⊎ In x (t ∷ ts)
        → In x (t ∷ insert_sorted s ts)
    swapped rec (inl e) = inr (rec (inl e))
    swapped rec (inr (inl e)) = inl e
    swapped rec (inr (inr o)) = inr (rec (inr o))

sort_texts-In : (x : String) (ss : List String) → In x ss → In x (sort_texts ss)
unfolding sort_texts
sort_texts-In x [] m = m
sort_texts-In x (s ∷ ss) (inl e) = insert_sorted-In x s (sort_texts ss) (inl e)
sort_texts-In x (s ∷ ss) (inr m) = insert_sorted-In x s (sort_texts ss) (inr (sort_texts-In x ss m))

-- The sorted ids are those of the rows.
pub In-sorted_activity_ids :
    (e : Engine) (id : String)
    → In id (sorted_activity_ids e)
    → (a : Activity) × (get id e.activities ≡ some a)
unfolding sorted_activity_ids
In-sorted_activity_ids e id m = In-keys id e.activities (In-sort_texts id (keys e.activities) m)

pub sorted_activity_ids-In :
    (e : Engine) (id : String) (a : Activity)
    → get id e.activities ≡ some a
    → In id (sorted_activity_ids e)
unfolding sorted_activity_ids
sorted_activity_ids-In e id a h =
    sort_texts-In id (keys e.activities) (In-keys_of_get id a e.activities h)

abbrev pub IsRow : Engine → String → Type 0
IsRow e id = (a : Activity) × (get id e.activities ≡ some a)

pub sorted_activity_ids-All : (e : Engine) → All (IsRow e) (sorted_activity_ids e)
sorted_activity_ids-All e = All-of_In (sorted_activity_ids e) (In-sorted_activity_ids e)

claimable→ready :
    (queue : String) (a : Activity) → claimable queue a ≡ true → a.status ≡ ActivityStatus.ready
unfolding claimable
claimable→ready queue a h = ground arith

take_lease-Lawful :
    (worker : String) (now : ℕ) (id : String) (a : Activity) (e : Engine)
    → get id e.activities ≡ some a
    → a.status ≡ ActivityStatus.ready
    → Lawful e (take_lease worker now id a e)
unfolding take_lease claimed
take_lease-Lawful worker now id a e h ready =
    Lawful-from (Steps-one (move (change id a _ h (claim worker (now + e.lease_ttl) ready))))
      (Lawful-from (touch_workflow-Steps a.workflow_id _) (lawful (Steps-one (log _ _ _ _))))

claim_first-Lawful :
    (worker queue : String) (now : ℕ) (ids : List String) (e : Engine)
    → All (IsRow e) ids
    → Lawful e (claim_first worker queue now ids e)
unfolding claim_first
claim_first-Lawful worker queue now [] e k = lawful here
claim_first-Lawful worker queue now (id ∷ ids) e ((a, h), k) =
    rw (h, ◌>>=◌, try_gets)
      (elim (Bool-cases (claimable queue a)) [
        | inl t ↦ rw t (take_lease-Lawful worker now id a e h (claimable→ready queue a t))
        | inr f ↦ rw f (claim_first-Lawful worker queue now ids e k)
      ])

pub claim-Lawful : (worker queue : String) (e : Engine) → Lawful e (claim_activity worker queue e)
unfolding claim_activity sorted_activity_ids
claim-Lawful worker queue e = Lawful-from (Steps-one read) (
    claim_first-Lawful worker queue (e.now e.reads) (sorted_activity_ids (tick e)) (tick e)
      (sorted_activity_ids-All (tick e)))
