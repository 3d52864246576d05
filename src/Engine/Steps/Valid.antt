-- ===== src/Engine/Steps/Valid.antt =====
-- The invariant of the engine, which every step keeps.
use durablego.Base.{
  ℕ, suc, ◌<◌, ◌≤◌, String, ◌≡◌, refl, List, [], ◌∷◌, ◌++◌, some, get, items, All, All-append,
  All-map, arith, put-Forall, get-put_self, get-put_ne, Bool-cases, text_eq, text_eq_iff, inl, inr,
  ◌≢◌, false,
}
use durablego.Types.{Workflow, Event}
use durablego.Board.{Board}
use durablego.Engine.State.{Engine, append_event}
use durablego.Engine.Start.{idem_key}
use durablego.Spec.Later.{Later, Later-refl, Later-trans}
use durablego.Spec.Kept.{Move-Later}
use durablego.Spec.Invariant.{IsValid}
use durablego.Spec.Invariant.Moves.{Move-IsValid}
use durablego.Engine.Steps.{Step, read, log, move, remember, Steps, here, next}

-- Sequence numbers rise along the list, from above `low`.
abbrev pub Rising : ℕ → List Event → Type 0
Rising low [] = Unit {0}
Rising low (x ∷ xs) = (low < x.sequence) × Rising x.sequence xs

-- The events of a workflow: in the order of their numbers, none above the counter.
pub record IsLog (limit : ℕ) (wid : String) (xs : List Event) : Type 0 where
  pub rising : Rising 0 xs
  pub below : All (λ (x : Event). (x.sequence ≤ limit) × (x.workflow_id ≡ wid)) xs

Rising-append :
    (low limit : ℕ) (wid : String) (xs : List Event) (x : Event)
    → Rising low xs
    → All (λ (y : Event). (y.sequence ≤ limit) × (y.workflow_id ≡ wid)) xs
    → low ≤ limit
    → x.sequence ≡ suc limit
    → Rising low (xs ++ x ∷ [])
Rising-append low limit wid [] x r b h e = (omega arith, tt)
Rising-append low limit wid (y ∷ ys) x r b h e =
    (r.0, Rising-append y.sequence limit wid ys x r.1 b.1 b.0.0 e)

IsLog-append :
    (limit : ℕ) (wid : String) (xs : List Event) (x : Event)
    → IsLog limit wid xs
    → x.sequence ≡ suc limit
    → x.workflow_id ≡ wid
    → IsLog (suc limit) wid (xs ++ x ∷ [])
IsLog-append limit wid xs x l e home = record {
  rising = Rising-append 0 limit wid xs x l.rising l.below (omega arith) e;
  below =
      All-append _ xs (x ∷ [])
        (All-map xs
          (λ (y : Event) (h : (y.sequence ≤ limit) × (y.workflow_id ≡ wid)). (omega arith, h.1))
          l.below)
        ((omega arith, home), tt);
}

pub record EngineIsValid (e : Engine) : Type 0 where
  pub rows : IsValid e.board
  pub attempts : 0 < e.max_attempts
  pub ttl : 0 < e.lease_ttl
  pub known :
      (k wid : String)
      → get k e.idempotency ≡ some wid
      → (w : Workflow) × (get wid e.workflows ≡ some w)
        × (idem_key w.namespace w.idempotency_key ≡ k)
  pub logs : (wid : String) → IsLog e.next_event wid (items (get wid e.events))

IsLog-raise :
    (limit : ℕ) (wid : String) (xs : List Event) → IsLog limit wid xs → IsLog (suc limit) wid xs
IsLog-raise limit wid xs l = record {
  rising = l.rising;
  below =
      All-map xs
        (λ (y : Event) (h : (y.sequence ≤ limit) × (y.workflow_id ≡ wid)). (omega arith, h.1))
        l.below;
}

module _ (wid aid typ msg : String) (e : Engine) (v : EngineIsValid e) where
  logs-append_event :
      (x : String)
      → IsLog (suc e.next_event) x (items (get x (append_event wid aid typ msg e).events))
  unfolding append_event
  logs-append_event x = elim (Bool-cases (text_eq wid x)) [
    | inl hit ↦
        let same : wid ≡ x = (text_eq_iff wid x).0 hit in
        rw (← same) (
          rw (get-put_self wid (items (get wid e.events) ++ _ ∷ []) e.events)
            (IsLog-append e.next_event wid (items (get wid e.events)) _ (v.logs wid) refl refl))
    | inr miss ↦
        rw (get-put_ne wid x (items (get wid e.events) ++ _ ∷ []) e.events (ne miss))
          (IsLog-raise e.next_event x (items (get x e.events)) (v.logs x))
  ]
    where
      ne : text_eq wid x ≡ false → wid ≢ x
      ne miss same = absurd (ground (arith, (text_eq_iff wid x).1 same))

  append_event-IsValid : EngineIsValid (append_event wid aid typ msg e)
  unfolding append_event
  append_event-IsValid = record {
    rows = v.rows;
    attempts = v.attempts;
    ttl = v.ttl;
    known = v.known;
    logs = logs-append_event;
  }

move-IsValid :
    (e : Engine) (b : Board)
    → Later e.board b
    → IsValid b
    → EngineIsValid e
    → EngineIsValid (record e { board = b })
move-IsValid e b l rows v = record {
  rows = rows;
  attempts = v.attempts;
  ttl = v.ttl;
  known = λ k wid h.
      let (w, ew, i) = v.known k wid h in
      let (w', ew', kept) = l.workflow wid w ew in
      (w', ew', rw (kept.same_namespace, kept.same_key) i);
  logs = v.logs;
}

pub Step-IsValid : (e : Engine) {f : Engine} → Step e f → EngineIsValid e → EngineIsValid f
Step-IsValid e read v = record {
  rows = v.rows;
  attempts = v.attempts;
  ttl = v.ttl;
  known = v.known;
  logs = v.logs;
}
Step-IsValid e (log wid aid typ msg) v = append_event-IsValid wid aid typ msg e v
Step-IsValid e (move {b'} m) v =
    move-IsValid e b' (Move-Later e.board v.rows.fresh m) (Move-IsValid e.board m v.rows) v
Step-IsValid e (remember wid w ew new) v = record {
  rows = v.rows;
  attempts = v.attempts;
  ttl = v.ttl;
  known =
      put-Forall
        (λ k id.
          (u : Workflow) × (get id e.workflows ≡ some u)
          × (idem_key u.namespace u.idempotency_key ≡ k))
        (idem_key w.namespace w.idempotency_key) wid e.idempotency (w, ew, refl) v.known;
  logs = v.logs;
}

pub Steps-IsValid : (e : Engine) {f : Engine} → Steps e f → EngineIsValid e → EngineIsValid f
Steps-IsValid e here v = v
Steps-IsValid e (next {f} s x) v = Step-IsValid f x (Steps-IsValid e s v)

append_event-Later :
    (wid aid typ msg : String) (e : Engine) → Later e.board (append_event wid aid typ msg e).board
unfolding append_event
append_event-Later wid aid typ msg e = Later-refl e.board

Step-Later : (e : Engine) {f : Engine} → EngineIsValid e → Step e f → Later e.board f.board
Step-Later e v read = Later-refl e.board
Step-Later e v (log wid aid typ msg) = append_event-Later wid aid typ msg e
Step-Later e v (move m) = Move-Later e.board v.rows.fresh m
Step-Later e v (remember wid w ew new) = Later-refl e.board

pub Steps-Later : (e : Engine) {f : Engine} → EngineIsValid e → Steps e f → Later e.board f.board
Steps-Later e v here = Later-refl e.board
Steps-Later e v (next {f} {g} s x) =
    Later-trans e.board f.board g.board (Steps-Later e v s) (Step-Later f (Steps-IsValid e s v) x)
