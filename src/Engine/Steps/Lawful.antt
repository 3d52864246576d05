-- ===== src/Engine/Steps/Lawful.antt =====
-- Actions that run to their end, with no nil dereference, by lawful steps: one rule for each way to
-- build an action.
use durablego.Base.{String, ◌≡◌, refl, Option, none, some, get}
use durablego.Types.{Workflow}
use durablego.Engine.State.{Engine, append_event, touch_workflow, touched}
use durablego.Spec.Move.{touch}
use durablego.Engine.Steps.{read, log, move, Steps, here, next, Steps-trans, Steps-one}

-- The action ended, and lawful steps lead from `e` to the engine that it left.
pub data Lawful {A : Type 0} (e : Engine) : Option (A × Engine) → Type 0 where
  lawful : {a : A} {f : Engine} → Steps e f → Lawful e (some (a, f))

module _ {A : Type 0} {e : Engine} where
  pub Lawful-run :
      {o : Option (A × Engine)}
      → Lawful e o
      → (a : A) × (f : Engine) × (o ≡ some (a, f)) × Steps e f
  Lawful-run (lawful {a} {f} s) = (a, f, refl, s)

  -- The steps that were made before come first.
  pub Lawful-from : {f : Engine} {o : Option (A × Engine)} → Steps e f → Lawful f o → Lawful e o
  Lawful-from s (lawful t) = lawful (Steps-trans s t)

touched-Steps :
    (wid : String) (o : Option Workflow) (e : Engine)
    → get wid e.workflows ≡ o
    → Steps e (touched wid o e)
unfolding touched
touched-Steps wid none e h = here
touched-Steps wid (some w) e h = next (next here read) (move (touch wid w (e.now e.reads) h))

pub touch_workflow-Steps : (wid : String) (e : Engine) → Steps e (touch_workflow wid e)
unfolding touch_workflow
touch_workflow-Steps wid e = touched-Steps wid (get wid e.workflows) e refl

pub append_event-Steps :
    (wid aid typ msg : String) (e : Engine) → Steps e (append_event wid aid typ msg e)
append_event-Steps wid aid typ msg e = Steps-one (log wid aid typ msg)
