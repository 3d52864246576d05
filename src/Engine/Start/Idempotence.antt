-- ===== src/Engine/Start/Idempotence.antt =====
-- Start over a history: what it refuses, what it creates, and idempotent starts.

use text.Mathlib.TextLemmas.{append_assoc as concat_assoc}
use durablego.Base.{
  suc, String, ◌≡◌, refl, sym, ap, ◌∙◌, inl, inr, Bool, true, false, List, none, some, get, text_eq,
  concat, arith, Bool-cases, get-put_self,
}
use durablego.Types.{Workflow, WorkflowDefinition, ok}
use durablego.Board.{workflow_id_of}
use durablego.Engine.State.{Engine, ◌>>=◌, try_gets}
use durablego.Engine.Start.{
  lacks_required, validate, idem_key, new_workflow, remember, create, create_if_valid, existing,
  start_or_existing, start,
}
use durablego.Engine.Start.Validation.{IsWellFormed, validate_cases}
use durablego.Engine.Start.Steps.{opened, create_lem, existing_cases}
use durablego.Engine.Steps.{Steps, here}
use durablego.Engine.Steps.Valid.{EngineIsValid, Steps-IsValid}
use durablego.Engine.History.{Call, run}
use durablego.Engine.History.Safety.{Steps-of_run}
use durablego.Engine.History.Log.{Steps-idempotency}

-- A Start under an unknown key validates, and then creates or reports.
start_unknown :
    (d : WorkflowDefinition) (key : String) (e : Engine)
    → lacks_required d ≡ false
    → existing d key e ≡ none
    → start d key e ≡ create_if_valid d key e
unfolding start start_or_existing
start_unknown d key e full n = rw full (rw n refl)

create_if_valid_good :
    (d : WorkflowDefinition) (key : String) (e : Engine)
    → validate d ≡ none
    → create_if_valid d key e ≡ create d key e
unfolding create_if_valid
create_if_valid_good d key e r = rw (r, create_if_valid) refl

-- A Start of a well-formed definition under no key, or under a key that is not yet known, creates a
-- workflow: it is returned, marked as new, and stored under the next workflow id, with the
-- definition's namespace and name, the key, and the clock's reading as its time of creation.
pub start_creates :
    (d : WorkflowDefinition) (key : String) (e : Engine)
    → EngineIsValid e
    → lacks_required d ≡ false
    → IsWellFormed d
    → existing d key e ≡ none
    → (w : Workflow) × (f : Engine) × (start d key e ≡ some (ok (w, false), f))
      × (get w.id e.workflows ≡ none)
      × (get w.id f.workflows ≡ some w)
      × (w.id ≡ workflow_id_of (suc e.next_workflow))
      × (w.namespace ≡ d.namespace)
      × (w.name ≡ d.name)
      × (w.idempotency_key ≡ key)
      × (w.created_at ≡ e.now e.reads)
unfolding new_workflow
start_creates d key e v full good n = elim (existing_cases d key e) [
  | inr (_, known, _) ↦ absurd (ground arith)
  | inl (_, new) ↦ elim (validate_cases d) [
    | inr (bad, _) ↦ absurd (bad good)
    | inl (_, r) ↦
        let (w, f, c, _, _, stored, kept) = create_lem d key e v new in
        (
          w,
          f,
          start_unknown d key e full n ∙ create_if_valid_good d key e r ∙ c,
          rw kept.same_id (v.rows.fresh.workflow (suc e.next_workflow) (omega arith)),
          rw kept.same_id stored,
          kept.same_id,
          kept.same_namespace,
          kept.same_name,
          kept.same_key,
          kept.same_created,
        )
  ]
]

remember_lem :
    (namespace key wid : String) (e : Engine)
    → text_eq key "" ≡ false
    → get (idem_key namespace key) (remember namespace key wid e).idempotency ≡ some wid
unfolding remember
remember_lem namespace key wid e f = rw f (get-put_self (idem_key namespace key) wid e.idempotency)

-- After a Start that returned a workflow, the key leads to that workflow.
start-known :
    (d : WorkflowDefinition) (key : String) (w : Workflow) (dup : Bool) (e f : Engine)
    → EngineIsValid e
    → text_eq key "" ≡ false
    → start d key e ≡ some (ok (w, dup), f)
    → Steps e f × (get (idem_key d.namespace key) f.idempotency ≡ some w.id)
unfolding start start_or_existing create_if_valid new_workflow
start-known d key w dup e f v keyed h = elim (Bool-cases (lacks_required d)) [
  | inl t ↦ absurd (ground arith)
  | inr full ↦ elim (existing_cases d key e) [
    | inr (wid, found, known) ↦
        let (u, eu, _) = v.known (idem_key d.namespace key) wid known in
        let same : u ≡ w = ground arith in
        let stay : e ≡ f = ground arith in
        let ident : w.id ≡ wid = ap (λ x. x.id) (sym same) ∙ v.rows.workflow_ident wid u eu in
        (rw (← stay) here, rw (← stay, ident) known)
    | inl (n, new) ↦ elim (validate_cases d) [
      | inr (_, (why, r)) ↦ absurd (ground arith)
      | inl (_, r) ↦
          let (u, g, c, s, late, _, kept) = create_lem d key e v new in
          let same : u ≡ w = ground arith in
          let stay : g ≡ f = ground arith in
          (
            rw (← stay) s,
            rw (← stay, ← same, kept.same_id)
                (Steps-idempotency (idem_key d.namespace key) (workflow_id_of (suc e.next_workflow))
                  (opened d key e v new) late
                  (remember_lem d.namespace key (workflow_id_of (suc e.next_workflow)) _ keyed)),
          )
    ]
  ]
]

-- Starting again under a key leads to the workflow that the key first got: whatever happened in
-- between, and whatever definition is given, so long as it has a name, an activity and the same
-- namespace, a Start with the key of an earlier successful Start returns the earlier workflow, marked
-- as a duplicate, and changes nothing.
pub idempotent_start :
    (d d' : WorkflowDefinition) (key : String) (w : Workflow) (dup : Bool) (cs : List Call)
    (e f g : Engine)
    → EngineIsValid e
    → text_eq key "" ≡ false
    → start d key e ≡ some (ok (w, dup), f)
    → run cs f ≡ some g
    → lacks_required d' ≡ false
    → d'.namespace ≡ d.namespace
    → (w' : Workflow) × (start d' key g ≡ some (ok (w', true), g)) × (w'.id ≡ w.id)
unfolding start start_or_existing existing
idempotent_start d d' key w dup cs e f g v keyed first r full same =
    let (s, known) = start-known d key w dup e f v keyed first in
    let vf = Steps-IsValid e s v in
    let t = Steps-of_run cs f g vf r in
    let known' = Steps-idempotency (idem_key d.namespace key) w.id f t known in
    let (u, eu, _) = (Steps-IsValid f t vf).known (idem_key d.namespace key) w.id known' in
    (
      u,
      rw full (rw keyed (rw same (rw known' (rw (eu, ◌>>=◌, try_gets) refl)))),
      (Steps-IsValid f t vf).rows.workflow_ident w.id u eu,
    )

idem_key_moves :
    (a b c : String) → idem_key (concat a (concat "\0" b)) c ≡ idem_key a (concat b (concat "\0" c))
unfolding idem_key
idem_key_moves a b c = simp concat_assoc

-- The key that the table is read by does not tell where the namespace ends: a NUL in the first
-- namespace moves the border, and the second Start, of another namespace and under another key,
-- returns the first one's workflow as a duplicate.
pub start_collides :
    (d d' : WorkflowDefinition) (left_part middle key : String) (w : Workflow) (dup : Bool)
    (e f : Engine)
    → EngineIsValid e
    → text_eq key "" ≡ false
    → text_eq (concat middle (concat "\0" key)) "" ≡ false
    → d.namespace ≡ concat left_part (concat "\0" middle)
    → d'.namespace ≡ left_part
    → lacks_required d' ≡ false
    → start d key e ≡ some (ok (w, dup), f)
    → (w' : Workflow) × (start d' (concat middle (concat "\0" key)) f ≡ some (ok (w', true), f))
      × (w'.id ≡ w.id)
unfolding start start_or_existing existing
start_collides d d' left_part middle key w dup e f v keyed keyed' ns ns' full first =
    let (s, known) = start-known d key w dup e f v keyed first in
    let one : idem_key d.namespace key ≡ idem_key d'.namespace (concat middle (concat "\0" key)) =
      rw (ns, ns') (idem_key_moves left_part middle key) in
    let known' : get (idem_key d'.namespace (concat middle (concat "\0" key))) f.idempotency
        ≡ some w.id =
      rw (← one) known in
    let (u, eu, _) = (Steps-IsValid e s v).known _ w.id known in
    (
      u,
      rw full (rw keyed' (rw known' (rw (eu, ◌>>=◌, try_gets) refl))),
      (Steps-IsValid e s v).rows.workflow_ident w.id u eu,
    )
