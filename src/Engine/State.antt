-- ===== src/Engine/State.antt =====
-- The Engine struct, its constructor, and the small steps that its methods are made of.
use durablego.Base.{
  ℕ, suc, ◌*◌, String, List, [], ◌∷◌, ◌++◌, Option, none, some, ℤ, positive_or, Map, get, put,
  items,
}
use durablego.Types.{Workflow, Activity, Event}
use durablego.Board.{Board, put_activity, put_workflow}

-- `now k` is what the k-th call of the clock returns, counted from 0; `reads` counts the calls.
pub record Engine : Type 0 where
  pub now : ℕ → ℕ
  pub reads : ℕ
  pub lease_ttl : ℕ
  pub max_attempts : ℕ
  pub next_event : ℕ
  pub board : Board
  pub open board use *
  pub events : Map (List Event)
  pub idempotency : Map String

abbrev pub second : ℕ
second = 1_000_000_000

-- New(leaseTTL, maxAttempts), with the clock that SetClock gives.
unfoldable pub new : (ℕ → ℕ) → ℤ → ℤ → Engine
new now lease_ttl max_attempts = record {
  now = now;
  reads = 0;
  lease_ttl = positive_or lease_ttl (30 * second);
  max_attempts = positive_or max_attempts 3;
  next_event = 0;
  board = record {
    next_workflow = 0;
    next_activity = 0;
    workflows = [];
    activities = [];
    activity_by_wf = [];
  };
  events = [];
  idempotency = [];
}

-- SetClock: the new clock is read from its first reading on.
pub set_clock : (ℕ → ℕ) → Engine → Engine
set_clock now e = record e { now = now; reads = 0 }

-- An action; `none` is a nil dereference, at which the process panics.
abbrev pub M : Type 0 → Type 0
M A = Engine → Option (A × Engine)

abbrev pub pure : {A : Type 0} → A → M A
pure a e = some (a, e)

infixl 5 ◌>>=◌ ◌>>◌
abbrev pub ◌>>=◌ : {A B : Type 0} → M A → (A → M B) → M B
◌>>=◌ m f e = elim (m e) [ none ↦ none | some (a, e') ↦ f a e' ]

abbrev pub ◌>>◌ : {B : Type 0} → M (Unit {0}) → M B → M B
m >> k = m >>= λ _. k

abbrev pub modify : (Engine → Engine) → M (Unit {0})
modify f e = some (tt, f e)

abbrev pub gets : {A : Type 0} → (Engine → A) → M A
gets f e = some (f e, e)

-- A read that may meet a nil pointer.
abbrev pub try_gets : {A : Type 0} → (Engine → Option A) → M A
try_gets f e = elim (f e) [ none ↦ none | some a ↦ some (a, e) ]

-- e.now()
abbrev pub tick : Engine → Engine
tick e = record e { reads = suc e.reads }

abbrev pub read_clock : M ℕ
read_clock e = some (e.now e.reads, tick e)

-- e.activities[id] and e.workflows[id], with the dereference that follows.
abbrev pub activity_at : String → M Activity
activity_at id = try_gets (λ e. get id e.activities)

abbrev pub workflow_at : String → M Workflow
workflow_at id = try_gets (λ e. get id e.workflows)

-- Writes through a row's pointer.
abbrev pub set_activity : String → Activity → Engine → Engine
set_activity id a e = record e { board = put_activity id a e.board }

abbrev pub set_workflow : String → Workflow → Engine → Engine
set_workflow id w e = record e { board = put_workflow id w e.board }

-- appendEventLocked
unfoldable pub append_event : String → String → String → String → Engine → Engine
append_event wid aid typ msg e = record e {
  reads = suc e.reads;
  next_event = suc e.next_event;
  events = put wid (items (get wid e.events) ++ event ∷ []) e.events;
}
  where
    event : Event
    event = record {
      sequence = suc e.next_event;
      workflow_id = wid;
      activity_id = aid;
      type = typ;
      message = msg;
      at = e.now e.reads;
    }

-- touchWorkflowLocked
unfoldable pub touched : String → Option Workflow → Engine → Engine
touched wid none e = e
touched wid (some w) e = set_workflow wid (record w { updated_at = e.now e.reads }) (tick e)

unfoldable pub touch_workflow : String → Engine → Engine
unfolding touched
touch_workflow wid e = touched wid (get wid e.workflows) e
