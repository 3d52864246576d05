-- ===== src/Board.antt =====
-- The rows that the engine and its specification share: the workflows, the activities, the activity
-- ids of each workflow, and the counters that new ids come from (engine.go).
use durablego.Base.{
  ℕ, String, Bool, true, false, Option, none, some, List, [], ◌∷◌, Map, get, put, items, text_eq,
  concat, padded,
}
use durablego.Types.{Workflow, Activity, is_completed}

pub record Board : Type 0 where
  pub next_workflow : ℕ
  pub next_activity : ℕ
  pub workflows : Map Workflow
  pub activities : Map Activity
  pub activity_by_wf : Map (List String)

-- fmt.Sprintf("wf_%06d", n) and fmt.Sprintf("act_%06d", n).
abbrev pub workflow_id_of : ℕ → String
workflow_id_of n = concat "wf_" (padded n)

abbrev pub activity_id_of : ℕ → String
activity_id_of n = concat "act_" (padded n)

abbrev pub put_activity : String → Activity → Board → Board
put_activity id a b = record b { activities = put id a b.activities }

abbrev pub put_workflow : String → Workflow → Board → Board
put_workflow id w b = record b { workflows = put id w b.workflows }

-- The activity ids of a workflow; none of an unknown one.
abbrev pub ids_of : Board → String → List String
ids_of b wid = items (get wid b.activity_by_wf)

-- The inner loop of dependenciesCompleteLocked: false where it returns early or found nothing.
-- `none` is a nil dereference, here and below.
unfoldable pub upstream_complete : Map Activity → String → Bool → List String → Option Bool
upstream_complete m dep found [] = some found
upstream_complete m dep found (id ∷ ids) = elim (get id m) [
  | none ↦ none
  | some u ↦ elim (text_eq u.name dep) [
    | true ↦ elim (is_completed u.status) [
      | true ↦ upstream_complete m dep true ids
      | false ↦ some false
    ]
    | false ↦ upstream_complete m dep found ids
  ]
]

unfoldable pub all_upstream_complete : Map Activity → List String → List String → Option Bool
all_upstream_complete m ids [] = some true
all_upstream_complete m ids (dep ∷ deps) = elim (upstream_complete m dep false ids) [
  | none ↦ none
  | some false ↦ some false
  | some true ↦ all_upstream_complete m ids deps
]

unfoldable pub dependencies_complete : Activity → Board → Option Bool
unfolding all_upstream_complete
dependencies_complete a b = all_upstream_complete b.activities (ids_of b a.workflow_id) a.depends_on

-- The loop of completeWorkflowIfDoneLocked.
unfoldable pub all_completed : Map Activity → List String → Option Bool
all_completed m [] = some true
all_completed m (id ∷ ids) = elim (get id m) [
  | none ↦ none
  | some a ↦ elim (is_completed a.status) [ true ↦ all_completed m ids | false ↦ some false ]
]
