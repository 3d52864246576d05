-- ===== src/Engine/Reads.antt =====
-- Engine.Workflow, the read of one workflow with its rows and events, and Engine.ListWorkflows. Copies
-- are values here.
use durablego.Base.{String, List, [], ◌∷◌, Option, none, some, Map, get, items}
use durablego.Types.{Workflow, Activity, Event, not_found, Result, ok, err}
use durablego.Board.{ids_of}
use durablego.Engine.State.{M, pure, ◌>>=◌, gets, try_gets}

-- The loop over activityByWF; `none` is a nil dereference.
unfoldable pub rows : Map Activity → List String → Option (List Activity)
rows m [] = some []
rows m (id ∷ ids) = elim (get id m) [
  | none ↦ none
  | some a ↦ elim (rows m ids) [ none ↦ none | some as' ↦ some (a ∷ as') ]
]

unfoldable pub workflow_found :
    String → Option Workflow → M (Result (Workflow × List Activity × List Event))
workflow_found id none = pure (err not_found)
workflow_found id (some w) = do
  activities ← try_gets (λ e. rows e.activities (ids_of e.board id))
  events ← gets (λ e. items (get id e.events))
  pure (ok (w, activities, events))

unfoldable pub workflow : String → M (Result (Workflow × List Activity × List Event))
unfolding workflow_found rows
workflow id = do found ← gets (λ e. get id e.workflows); workflow_found id found

values : Map Workflow → List Workflow
values [] = []
values ((_, w) ∷ m) = w ∷ values m

-- ListWorkflows. `arrange` is the order in which Go ranges over the map, and then what sort.Slice makes
-- of it.
unfoldable pub list_workflows : (List Workflow → List Workflow) → M (Result (List Workflow))
unfolding values
list_workflows arrange = gets (λ e. ok (arrange (values e.workflows)))
