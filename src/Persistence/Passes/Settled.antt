-- ===== src/Persistence/Passes/Settled.antt =====
-- Tables in which a pass has nothing left to do, and the changes that make them so.
use durablego.Base.{
  ℕ, ◌≡◌, refl, ap, ◌∙◌, inl, inr, Bool, false, not, List, [], ◌∷◌, ◌&&◌, ◌||◌, In, In-map, map,
  any, leb, ltb, text_eq, Bool-cases,
}
use durablego.Types.{is_completed, is_retry_pending}
use durablego.Persistence.Tables.{ActivityRow, DependencyRow, Tables, update_where}
use durablego.Persistence.Helpers.{is_blocked, is_due, made_ready}
use durablego.Persistence.Cancel.{is_expired, expired}
use durablego.Persistence.Follows.Changes.{updated}
use durablego.Persistence.Ends.Helpers.{due_waits}

any-map :
    {A : Type 0} (test : A → Bool) (g : A → A)
    → ((a : A) → test (g a) ≡ test a)
    → (xs : List A) → any test (map g xs) ≡ any test xs
any-map test g same [] = refl
any-map test g same (x ∷ xs) = rw (same x, any-map test g same xs) refl

any-same :
    {A : Type 0} (f g : A → Bool) → ((a : A) → f a ≡ g a) → (xs : List A) → any f xs ≡ any g xs
any-same f g same [] = refl
any-same f g same (x ∷ xs) = rw (same x, any-same f g same xs) refl

-- A row that is taken back is not running, and one made ready neither runs nor waits.
expired-settled : (now : ℕ) (a : ActivityRow) → is_expired now (expired now a) ≡ false
unfolding is_expired expired
expired-settled now a = elim (Bool-cases (ltb a.attempt a.max_attempts)) [
  | inl again ↦ rw again refl
  | inr over ↦ rw over refl
]

made_ready-settled : (now : ℕ) (a : ActivityRow) → is_expired now (made_ready now a) ≡ false
unfolding is_expired
made_ready-settled now a = refl

pub taken_back :
    (now : ℕ) (rows : List ActivityRow) (b : ActivityRow)
    → In b (update_where (is_expired now) (expired now) rows)
    → is_expired now b ≡ false
taken_back now rows b m =
    let (a, _, e) = In-map (updated (is_expired now) (expired now)) rows b m in
    elim (Bool-cases (is_expired now a)) [
      | inl hit ↦ rw (e, hit) (expired-settled now a)
      | inr miss ↦ rw (e, miss) miss
    ]

-- The row `x` is what `d` waits for, and is not completed.
abbrev holds_up : DependencyRow → ActivityRow → Bool
holds_up d x =
    text_eq x.workflow_execution_id d.workflow_execution_id
    && text_eq x.name d.depends_on_name
    && not (is_completed x.status)

holds_up-released :
    (now : ℕ) (t : Tables) (d : DependencyRow) (x : ActivityRow)
    → holds_up d (updated (is_due now "" t) (made_ready now) x) ≡ holds_up d x
holds_up-released now t d x = elim (Bool-cases (is_due now "" t x)) [
  | inl hit ↦ rw (hit, due_waits now "" t x hit) refl
  | inr miss ↦ rw miss refl
]

-- What a row waits for is not changed by making rows ready.
is_blocked-released :
    (now : ℕ) (t u : Tables) (a : ActivityRow)
    → u.activities ≡ update_where (is_due now "" t) (made_ready now) t.activities
    → u.dependencies ≡ t.dependencies
    → is_blocked u a ≡ is_blocked t a
unfolding is_blocked
is_blocked-released now t u a acts deps =
    ap (any (waits u)) deps
    ∙ any-same (waits u) (waits t)
        (λ d.
          ap
            (λ b.
              text_eq d.workflow_execution_id a.workflow_execution_id
              && text_eq d.activity_name a.name
              && b)
            (ap (any (holds_up d)) acts
              ∙ any-map (holds_up d) (updated (is_due now "" t) (made_ready now))
                  (holds_up-released now t d) t.activities))
        t.dependencies
  where
    waits : Tables → DependencyRow → Bool
    waits v d =
        text_eq d.workflow_execution_id a.workflow_execution_id
        && text_eq d.activity_name a.name
        && any (holds_up d) v.activities

-- Whether a row is due is whether it waits for its time, which has come, and for no other row.
is_due-released :
    (now : ℕ) (t u : Tables) (a : ActivityRow)
    → u.activities ≡ update_where (is_due now "" t) (made_ready now) t.activities
    → u.dependencies ≡ t.dependencies
    → is_due now "" u a ≡ is_due now "" t a
unfolding is_due
is_due-released now t u a acts deps =
    ap
      (λ b.
        is_retry_pending a.status
        && leb a.next_attempt_at now
        && (text_eq "" "" || text_eq a.workflow_execution_id "")
        && not b)
      (is_blocked-released now t u a acts deps)

ready-not_due :
    (now : ℕ) (t : Tables) (a : ActivityRow) → is_due now "" t (made_ready now a) ≡ false
unfolding is_due
ready-not_due now t a = refl

-- Nothing is left to do at the time `now`: no lease is over, and no waiting row is due.
abbrev pub IsSettled : ℕ → Tables → Type 0
IsSettled now t =
    (a : ActivityRow) → In a t.activities → (is_expired now a ≡ false) × (is_due now "" t a ≡ false)

pub released-IsSettled :
    (now : ℕ) (t u : Tables)
    → ((a : ActivityRow) → In a t.activities → is_expired now a ≡ false)
    → u.activities ≡ update_where (is_due now "" t) (made_ready now) t.activities
    → u.dependencies ≡ t.dependencies
    → IsSettled now u
released-IsSettled now t u over acts deps b m =
    let (a, i, e) =
      In-map (updated (is_due now "" t) (made_ready now)) t.activities b (rw acts at m) in
    elim (Bool-cases (is_due now "" t a)) [
      | inl hit ↦
          let same : b ≡ made_ready now a = e ∙ rw hit refl in
          (
            ap (is_expired now) same ∙ made_ready-settled now a,
            ap (is_due now "" u) same ∙ ready-not_due now u a,
          )
      | inr miss ↦
          let same : b ≡ a = e ∙ rw miss refl in
          (
            ap (is_expired now) same ∙ over a i,
            is_due-released now t u b acts deps ∙ ap (is_due now "" t) same ∙ miss,
          )
    ]
