-- ===== src/Engine/Start/Steps.antt =====
-- Start runs to its end by lawful steps.
use durablego.Base.{
  suc, String, ◌≡◌, refl, ◌∙◌, ◌⊎◌, inl, inr, false, none, some, get, text_eq, arith, Bool-cases,
  Option-cases, get-put_self,
}
use durablego.Types.{Workflow, WorkflowDefinition, ok}
use durablego.Engine.State.{Engine, ◌>>=◌, try_gets, tick, append_event}
use durablego.Engine.Locked.Steps.{release_ready-Lawful}
use durablego.Engine.Start.{
  lacks_required, validate, idem_key, schedule_all, new_workflow, add_workflow,
  remember as remember_key, create, create_if_valid, existing, start_or_existing, start,
}
use durablego.Spec.Later.{KeptWorkflow}
use durablego.Spec.Move.{open_workflow}
use durablego.Engine.Steps.{read, log, move, Steps, here, next, Steps-one, Steps-trans}
use durablego.Engine.Steps.Valid.{EngineIsValid, Steps-IsValid, Steps-Later}
use durablego.Engine.Steps.Lawful.{Lawful, lawful, Lawful-run}
use durablego.Engine.Start.Rows.{
  IsWaiting, schedule_all-Steps, remember_key-Steps, remember_key-board, remember_key-max_attempts,
  append_event-board, append_event-max_attempts, no_rows,
}

module _ (d : WorkflowDefinition) (key : String) (e : Engine) (v : EngineIsValid e)
    (new : text_eq key "" ≡ false → get (idem_key d.namespace key) e.idempotency ≡ none) where
  abbrev pub born : Workflow
  born = new_workflow d key (e.now e.reads) (suc e.next_workflow)

  -- The engine when the workflow's row and its idempotency key are there.
  abbrev pub opened : Engine
  opened =
      remember_key d.namespace key born.id (record (tick e) { board = add_workflow born e.board })

  abbrev announced : Engine
  announced = append_event born.id "" "workflow.started" "workflow created" opened

  abbrev scheduled : Engine
  scheduled = schedule_all (e.now e.reads) born.id d.activities announced

  opened-Steps : Steps e opened
  unfolding new_workflow add_workflow
  opened-Steps = Steps-trans (next (Steps-one read) (move (open_workflow born refl refl))) (
      remember_key-Steps d.namespace key born.id born _ (get-put_self _ born e.workflows) refl refl
        new)

  announced-board : announced.board ≡ add_workflow born e.board
  announced-board =
      append_event-board born.id "" "workflow.started" "workflow created" opened
      ∙ remember_key-board d.namespace key born.id
          (record (tick e) { board = add_workflow born e.board })

  announced-max_attempts : announced.max_attempts ≡ e.max_attempts
  announced-max_attempts =
      append_event-max_attempts born.id "" "workflow.started" "workflow created" opened
      ∙ remember_key-max_attempts d.namespace key born.id
          (record (tick e) { board = add_workflow born e.board })

  announced-workflow : get born.id announced.workflows ≡ some born
  unfolding add_workflow
  announced-workflow = rw announced-board (get-put_self born.id born e.workflows)

  announced-IsWaiting : IsWaiting born.id announced
  unfolding add_workflow new_workflow
  announced-IsWaiting =
      rw announced-board
        (no_rows born.id e v (v.rows.fresh.workflow (suc e.next_workflow) (omega arith)))

  announced-Steps : Steps e announced
  announced-Steps = next opened-Steps (log born.id "" "workflow.started" "workflow created")

  scheduling-Steps : Steps announced scheduled
  unfolding new_workflow
  scheduling-Steps =
      schedule_all-Steps (e.now e.reads) born.id born refl d.activities announced
        (rw announced-max_attempts v.attempts) announced-workflow announced-IsWaiting

  -- A new workflow is returned as it is stored, under its own id.
  pub create_lem :
      (w : Workflow) × (f : Engine) × (create d key e ≡ some (ok (w, false), f))
      × Steps e f
      × Steps opened f
      × (get born.id f.workflows ≡ some w)
      × KeptWorkflow born w
  unfolding create new_workflow
  create_lem =
      let va = Steps-IsValid e announced-Steps v in
      let (_, f, r, s) =
        Lawful-run
          (release_ready-Lawful born.id scheduled (Steps-IsValid announced scheduling-Steps va)) in
      let rest = Steps-trans scheduling-Steps s in
      let (w, ew, kept) =
        (Steps-Later announced va rest).workflow born.id born announced-workflow in
      (
        w,
        f,
        rw (r, ◌>>=◌) (rw (ew, ◌>>=◌, try_gets) refl),
        Steps-trans announced-Steps rest,
        Steps-trans (Steps-one (log born.id "" "workflow.started" "workflow created")) rest,
        ew,
        kept,
      )

  create-Lawful : Lawful e (create d key e)
  create-Lawful = let (w, f, r, s, _, _, _) = create_lem in rw r (lawful s)

create_if_valid-Lawful :
    (d : WorkflowDefinition) (key : String) (e : Engine)
    → EngineIsValid e
    → (text_eq key "" ≡ false → get (idem_key d.namespace key) e.idempotency ≡ none)
    → Lawful e (create_if_valid d key e)
unfolding create_if_valid
create_if_valid-Lawful d key e v new = elim (Option-cases (validate d)) [
  | inl good ↦ rw (good, create_if_valid) (create-Lawful d key e v new)
  | inr (x, bad) ↦ rw (bad, create_if_valid) (lawful here)
]

-- What the idempotency table says of a key.
pub existing_cases :
    (d : WorkflowDefinition) (key : String) (e : Engine)
    → ((existing d key e ≡ none)
        × (text_eq key "" ≡ false → get (idem_key d.namespace key) e.idempotency ≡ none))
      ⊎ ((wid : String) × (existing d key e ≡ some wid)
          × (get (idem_key d.namespace key) e.idempotency ≡ some wid))
unfolding existing
existing_cases d key e = elim (Bool-cases (text_eq key "")) [
  | inl t ↦ inl (rw t refl, λ f. absurd (ground arith))
  | inr f ↦ elim (Option-cases (get (idem_key d.namespace key) e.idempotency)) [
    | inl n ↦ inl (rw f n, λ _. n)
    | inr (wid, h) ↦ inr (wid, rw f h, h)
  ]
]

pub start-Lawful :
    (d : WorkflowDefinition) (key : String) (e : Engine)
    → EngineIsValid e
    → Lawful e (start d key e)
unfolding start start_or_existing
start-Lawful d key e v = elim (Bool-cases (lacks_required d)) [
  | inl t ↦ rw t (lawful here)
  | inr f ↦ rw f (elim (existing_cases d key e) [
    | inl (n, new) ↦ rw n (create_if_valid-Lawful d key e v new)
    | inr (wid, h, known) ↦
        let (w, ew, _) = v.known (idem_key d.namespace key) wid known in
        rw h (rw (ew, ◌>>=◌, try_gets) (lawful here))
  ])
]
