-- ===== src/Engine/History/Log.antt =====
-- The event log and the idempotency table only grow.
use durablego.Base.{
  String, ◌≡◌, sym, ap, ◌∙◌, inl, inr, List, [], ◌++◌, append-nil, append_assoc, some, get, items,
  text_eq, text_eq_iff, Bool-cases, get-put_self, get-put_ne, get-put_new, arith,
}
use durablego.Types.{Event}
use durablego.Engine.State.{Engine, append_event}
use durablego.Engine.Steps.{Step, read, log, move, remember, Steps, here, next}
use durablego.Engine.Steps.Valid.{EngineIsValid}
use durablego.Engine.History.{Call, run}
use durablego.Engine.History.Safety.{Steps-of_run}

-- The events of the workflow on the second engine are those on the first, then others.
abbrev pub Extends : String → Engine → Engine → Type 0
Extends wid e f = (new : List Event) × (items (get wid f.events) ≡ items (get wid e.events) ++ new)

append_event-Extends :
    (x wid aid typ msg : String) (e : Engine) → Extends x e (append_event wid aid typ msg e)
unfolding append_event
append_event-Extends x wid aid typ msg e = elim (Bool-cases (text_eq wid x)) [
  | inl hit ↦
      let same : wid ≡ x = (text_eq_iff wid x).0 hit in
      rw (← same) (_, ap items (get-put_self wid _ e.events))
  | inr miss ↦ (
    [],
    ap items (
          get-put_ne wid x _ e.events (λ same. absurd (ground (arith, (text_eq_iff wid x).1 same))))
        ∙ sym (append-nil (items (get x e.events))),
  )
]

Step-Extends : (x : String) (e : Engine) {f : Engine} → Step e f → Extends x e f
Step-Extends x e read = ([], sym (append-nil (items (get x e.events))))
Step-Extends x e (log wid aid typ msg) = append_event-Extends x wid aid typ msg e
Step-Extends x e (move m) = ([], sym (append-nil (items (get x e.events))))
Step-Extends x e (remember wid w h n) = ([], sym (append-nil (items (get x e.events))))

Steps-Extends : (x : String) (e : Engine) {f : Engine} → Steps e f → Extends x e f
Steps-Extends x e here = ([], sym (append-nil (items (get x e.events))))
Steps-Extends x e (next {f} s t) =
    let (old, p) = Steps-Extends x e s in
    let (new, q) = Step-Extends x f t in
    (old ++ new, q ∙ ap (λ l. l ++ new) p ∙ append_assoc (items (get x e.events)) old new)

Step-idempotency :
    (k wid : String) (e : Engine) {f : Engine}
    → Step e f
    → get k e.idempotency ≡ some wid
    → get k f.idempotency ≡ some wid
unfolding append_event
Step-idempotency k wid e read h = h
Step-idempotency k wid e (log _ _ _ _) h = h
Step-idempotency k wid e (move m) h = h
Step-idempotency k wid e (remember id w _ n) h = get-put_new _ k id wid e.idempotency n h

pub Steps-idempotency :
    (k wid : String) (e : Engine) {f : Engine}
    → Steps e f
    → get k e.idempotency ≡ some wid
    → get k f.idempotency ≡ some wid
Steps-idempotency k wid e here h = h
Steps-idempotency k wid e (next {f} s t) h =
    Step-idempotency k wid f t (Steps-idempotency k wid e s h)

-- No history rewrites or drops an event: the events of each workflow are the earlier ones, in their
-- order, followed by new ones.
pub run-Extends :
    (cs : List Call) (e f : Engine) (wid : String)
    → EngineIsValid e
    → run cs e ≡ some f
    → Extends wid e f
run-Extends cs e f wid v r = Steps-Extends wid e (Steps-of_run cs e f v r)
