-- ===== src/Engine/History.antt =====
-- Histories of the engine: sequences of whole calls, as the mutex of engine.go orders them.
pub mod Safety
pub mod Log
use durablego.Base.{ℕ, String, Bool, List, [], ◌∷◌, Option, none, some}
use durablego.Types.{WorkflowDefinition}
use durablego.Engine.State.{Engine, M}
use durablego.Engine.Start.{start}
use durablego.Engine.Claim.{claim}
use durablego.Engine.Lease.{heartbeat, complete, fail}
use durablego.Engine.Cancel.{cancel}
use durablego.Engine.Sweep.{run_scheduler_pass}

-- The methods of *Engine that change its state, with their arguments.
pub data Call : Type 0 where
  starts : WorkflowDefinition → String → Call
  claims : String → String → Call
  heartbeats completes : String → String → ℕ → Call
  fails : String → String → ℕ → Bool → String → Call
  cancels : String → Call
  passes : Call

-- The engine that a call leaves; `none` where it panicked.
abbrev pub left : {A : Type 0} → Option (A × Engine) → Option Engine
left none = none
left (some (_, e)) = some e

unfoldable pub serve : Call → Engine → Option Engine
serve (starts d key) e = left (start d key e)
serve (claims worker queue) e = left (claim worker queue e)
serve (heartbeats id worker token) e = left (heartbeat id worker token e)
serve (completes id worker token) e = left (complete id worker token e)
serve (fails id worker token retryable message) e = left (fail id worker token retryable message e)
serve (cancels wid) e = left (cancel wid e)
serve passes e = left (run_scheduler_pass e)

unfoldable pub run : List Call → Engine → Option Engine
run [] e = some e
run (c ∷ cs) e = elim (serve c e) [ none ↦ none | some f ↦ run cs f ]
