-- ===== src/Engine/Claim/Choice.antt =====
-- What Claim chooses, and what it writes.
use durablego.Base.{
  suc, concat, keys, ℕ, ◌+◌, String, ◌≡◌, ◌≢◌, refl, sym, ap, subst, ◌∙◌, In, All-map, text_eq,
  text_eq_iff, AtMost, AtMost-refl, AtMost-trans, is_le_cases, ◌⊎◌, inl, inr, true, List, [], ◌∷◌,
  ◌++◌, some, get, put, All, All-In, arith, Bool-cases, Option-cases, get-put_self, get-put_ne,
}
use durablego.Types.{ActivityStatus, Activity, no_runnable_activity, ok, err}
use durablego.Engine.State.{Engine, ◌>>=◌, try_gets, tick, touched, touch_workflow, append_event}
use durablego.Engine.Claim.{
  sorted_activity_ids, sort_texts, insert_sorted, claimable, claimed, claim_of, take_lease,
  claim_first, claim,
}
use durablego.Engine.Claim.Steps.{IsRow, sorted_activity_ids-All, sorted_activity_ids-In}

-- The row is ready, and of the queue, where both name one.
abbrev pub IsClaimable : String → Activity → Type 0
IsClaimable queue a =
    (a.status ≡ ActivityStatus.ready)
    × ((queue ≡ "") ⊎ (a.task_queue ≡ "") ⊎ (queue ≡ a.task_queue))

claimable-IsClaimable :
    (queue : String) (a : Activity) → claimable queue a ≡ true → IsClaimable queue a
unfolding claimable
claimable-IsClaimable queue a h = (
  ground arith,
  elim (Bool-cases (text_eq queue "")) [
    | inl e ↦ inl ((text_eq_iff queue "").0 e)
    | inr e ↦ elim (Bool-cases (text_eq a.task_queue "")) [
      | inl f ↦ inr (inl ((text_eq_iff a.task_queue "").0 f))
      | inr f ↦ inr (inr ((text_eq_iff queue a.task_queue).0 (ground arith)))
    ]
  ],
)

IsClaimable-claimable :
    (queue : String) (a : Activity) → IsClaimable queue a → claimable queue a ≡ true
unfolding claimable
IsClaimable-claimable queue a (h, inl e) = ground (arith, (text_eq_iff queue "").1 e)
IsClaimable-claimable queue a (h, inr (inl e)) = ground (arith, (text_eq_iff a.task_queue "").1 e)
IsClaimable-claimable queue a (h, inr (inr e)) =
    ground (arith, (text_eq_iff queue a.task_queue).1 e)

-- The row under the id, if there is one, is not to be claimed from the queue.
abbrev pub IsPassedOver : String → Engine → String → Type 0
IsPassedOver queue e id = (a : Activity) → get id e.activities ≡ some a → ¬ IsClaimable queue a

-- The row `a` under `id` is given to the worker: of the rows that may be claimed, it has the least id,
-- its attempt and token go up by one, its lease runs for the engine's term from the clock's
-- reading, the claim that is returned shows the row, and no other activity row changes.
pub record Grants (worker queue id : String) (a : Activity) (e : Engine) : Type 0 where
  pub row : get id e.activities ≡ some a
  pub may : IsClaimable queue a
  pub least :
      (j : String) (b : Activity) → get j e.activities ≡ some b → IsClaimable queue b → AtMost id j
  pub after : Engine
  pub returns :
      claim worker queue e
      ≡ some (ok (claim_of (claimed worker (e.now e.reads + e.lease_ttl) a)), after)
  pub stored : get id after.activities ≡ some (claimed worker (e.now e.reads + e.lease_ttl) a)
  pub runs : claimed worker (e.now e.reads + e.lease_ttl) a ≡ record a {
    status = ActivityStatus.running;
    attempt = suc a.attempt;
    lease_owner = worker;
    fencing_token = suc a.fencing_token;
    lease_expires_at = e.now e.reads + e.lease_ttl;
  }
  pub shows : claim_of (claimed worker (e.now e.reads + e.lease_ttl) a) ≡ record {
    activity_id = a.id;
    workflow_id = a.workflow_id;
    name = a.name;
    attempt = suc a.attempt;
    fencing_token = suc a.fencing_token;
    lease_expires_at = e.now e.reads + e.lease_ttl;
    application_key = concat a.workflow_id (concat ":" a.name);
  }
  pub others : (j : String) → id ≢ j → get j after.activities ≡ get j e.activities

-- Each text comes before those behind it.
Ascends : List String → Type 0
Ascends [] = Unit
Ascends (x ∷ xs) = All (AtMost x) xs × Ascends xs

All-insert_sorted :
    (P : String → Type 0) (s : String) (ts : List String)
    → P s
    → All P ts
    → All P (insert_sorted s ts)
unfolding insert_sorted
All-insert_sorted P s [] h k = (h, tt)
All-insert_sorted P s (t ∷ ts) h k = elim (is_le_cases s t) [
  | inl (le, _) ↦ rw le (h, k)
  | inr (gt, _) ↦ rw gt (k.0, All-insert_sorted P s ts h k.1)
]

insert_sorted-Ascends : (s : String) (ts : List String) → Ascends ts → Ascends (insert_sorted s ts)
unfolding insert_sorted Ascends
insert_sorted-Ascends s [] h = (tt, tt)
insert_sorted-Ascends s (t ∷ ts) h = elim (is_le_cases s t) [
  | inl (le, k) ↦ rw le ((k, All-map ts (λ x m. AtMost-trans k m) h.0), h)
  | inr (gt, k) ↦ rw gt (All-insert_sorted (AtMost t) s ts k h.0, insert_sorted-Ascends s ts h.1)
]

sort_texts-Ascends : (ss : List String) → Ascends (sort_texts ss)
unfolding sort_texts Ascends
sort_texts-Ascends [] = tt
sort_texts-Ascends (s ∷ ss) = insert_sorted-Ascends s (sort_texts ss) (sort_texts-Ascends ss)

-- What is found in an ascending list, but not before `id`, is at least `id`.
Ascends-behind :
    (before behind : List String) (id j : String)
    → Ascends (before ++ id ∷ behind)
    → In j (before ++ id ∷ behind)
    → In j before ⊎ AtMost id j
unfolding Ascends
Ascends-behind [] behind id j h (inl e) = inr (subst (AtMost id) (sym e) (AtMost-refl id))
Ascends-behind [] behind id j h (inr m) = inr (All-In (AtMost id) behind h.0 j m)
Ascends-behind (x ∷ before) behind id j h (inl e) = inl (inl e)
Ascends-behind (x ∷ before) behind id j h (inr m) = elim (Ascends-behind before behind id j h.1 m) [
  | inl early ↦ inl (inr early)
  | inr least ↦ inr least
]

sorted_activity_ids-Ascends : (e : Engine) → Ascends (sorted_activity_ids e)
unfolding sorted_activity_ids
sorted_activity_ids-Ascends e = sort_texts-Ascends (keys e.activities)

touch_workflow-activities :
    (wid : String) (e : Engine) → (touch_workflow wid e).activities ≡ e.activities
unfolding touch_workflow touched
touch_workflow-activities wid e = elim (Option-cases (get wid e.workflows)) [
  | inl h ↦ rw h refl
  | inr (w, h) ↦ rw h refl
]

append_event-activities :
    (wid aid typ msg : String) (e : Engine)
    → (append_event wid aid typ msg e).activities ≡ e.activities
unfolding append_event
append_event-activities wid aid typ msg e = refl

-- What claiming one row does.
take_lease_lem :
    (worker : String) (now : ℕ) (id : String) (a : Activity) (e : Engine)
    → (f : Engine) × (take_lease worker now id a e
        ≡ some (ok (claim_of (claimed worker (now + e.lease_ttl) a)), f))
      × (f.activities ≡ put id (claimed worker (now + e.lease_ttl) a) e.activities)
unfolding take_lease
take_lease_lem worker now id a e =
    (_, refl, append_event-activities _ _ _ _ _ ∙ touch_workflow-activities _ _)

-- The loop over the ids: it passes all over, or stops at the first that it may claim.
claim_first_cases :
    (worker queue : String) (now : ℕ) (ids : List String) (e : Engine)
    → All (IsRow e) ids
    → (All (IsPassedOver queue e) ids
        × (claim_first worker queue now ids e ≡ some (err no_runnable_activity, e)))
      ⊎ ((id : String) × (a : Activity) × (before : List String) × (behind : List String) × (ids
            ≡ before ++ id ∷ behind)
          × All (IsPassedOver queue e) before
          × (get id e.activities ≡ some a)
          × (claimable queue a ≡ true)
          × (claim_first worker queue now ids e ≡ take_lease worker now id a e))
unfolding claim_first
claim_first_cases worker queue now [] e k = inl (tt, refl)
claim_first_cases worker queue now (id ∷ ids) e ((a, h), k) =
    elim (Bool-cases (claimable queue a)) [
      | inl t ↦ inr (id, a, [], ids, refl, tt, h, t, rw (h, ◌>>=◌, try_gets) (rw t refl))
      | inr f ↦
          let over : IsPassedOver queue e id = λ b hb may.
            let b≡a : b ≡ a = ground arith in
            absurd (ground (arith, ap (claimable queue) b≡a, IsClaimable-claimable queue b may)) in
          elim (claim_first_cases worker queue now ids e k) [
            | inl (all, r) ↦ inl ((over, all), rw (h, ◌>>=◌, try_gets) (rw f r))
            | inr (j, b, before, behind, o, skipped, hj, may, r) ↦ inr (
              j,
              b,
              id ∷ before,
              behind,
              ap (λ l. id ∷ l) o,
              (over, skipped),
              hj,
              may,
              rw (h, ◌>>=◌, try_gets) (rw f r),
            )
          ]
    ]

-- Claim either grants one row, which of all that are ready and of the queue has the least id, or
-- reports that there is no runnable activity; then no row at all may be claimed, and nothing but the
-- clock has moved.
pub claim_cases :
    (worker queue : String) (e : Engine)
    → ((claim worker queue e ≡ some (err no_runnable_activity, tick e))
        × ((id : String) → IsPassedOver queue e id))
      ⊎ ((id : String) × (a : Activity) × Grants worker queue id a e)
unfolding claim sorted_activity_ids claimed claim_of
claim_cases worker queue e =
    elim (claim_first_cases worker queue (e.now e.reads) (sorted_activity_ids e) (tick e)
      (sorted_activity_ids-All e)) [
        | inl (all, r) ↦ inl (
          r,
          λ id a h.
              All-In (IsPassedOver queue e) (sorted_activity_ids e) all id
                (sorted_activity_ids-In e id a h) a h,
        )
        | inr (id, a, before, behind, o, skipped, h, may, r) ↦
            let (f, rf, rows) = take_lease_lem worker (e.now e.reads) id a (tick e) in
            inr (
              id,
              a,
              record {
                row = h;
                may = claimable-IsClaimable queue a may;
                least = λ j b hj mine.
                    elim (Ascends-behind before behind id j
                      (subst Ascends o (sorted_activity_ids-Ascends e))
                      (subst (In j) o (sorted_activity_ids-In e j b hj))) [
                        | inl early ↦ absurd (All-In _ before skipped j early b hj mine)
                        | inr least ↦ least
                      ];
                after = f;
                returns = r ∙ rf;
                stored = ap (get id) rows ∙ get-put_self id _ e.activities;
                runs = refl;
                shows = refl;
                others = λ j n. ap (get j) rows ∙ get-put_ne id j _ e.activities n;
              },
            )
      ]
