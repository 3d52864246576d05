-- ===== src/Engine/Steps.antt =====
-- The engine as a step relation: each method of engine.go is a sequence of clock readings, events,
-- lawful moves of the rows, and new idempotency keys.
pub mod Valid
pub mod Lawful
use durablego.Base.{ℕ, suc, String, ◌≡◌, refl, Option, none, some, get, put}
use durablego.Types.{Workflow}
use durablego.Board.{Board}
use durablego.Engine.State.{Engine, tick, append_event}
use durablego.Engine.Start.{idem_key}
use durablego.Spec.Move.{Move}

pub data Step (e : Engine) : Engine → Type 0 where
  read : Step e (tick e)
  log : (wid aid typ msg : String) → Step e (append_event wid aid typ msg e)
  move : {b' : Board} → Move e.board b' → Step e (record e { board = b' })
  remember :
      (wid : String) (w : Workflow)
      → get wid e.workflows ≡ some w
      → get (idem_key w.namespace w.idempotency_key) e.idempotency ≡ none
      → Step e (record e {
        idempotency = put (idem_key w.namespace w.idempotency_key) wid e.idempotency;
      })

pub data Steps (e : Engine) : Engine → Type 0 where
  here : Steps e e
  next : {f g : Engine} → Steps e f → Step f g → Steps e g

pub Steps-trans : {e f g : Engine} → Steps e f → Steps f g → Steps e g
Steps-trans s here = s
Steps-trans s (next t x) = next (Steps-trans s t) x

pub Steps-one : {e f : Engine} → Step e f → Steps e f
Steps-one x = next here x
