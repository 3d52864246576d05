-- ===== src/Telemetry.antt =====
-- internal/telemetry/metrics.go: the workflows by status, in the text format of Prometheus.
use text.Mathlib.TextLemmas.{append_assoc as text_assoc}
use durablego.Base.{
  ℕ, suc, Bool, true, false, String, List, [], ◌∷◌, Option, none, some, Map, get, put, concat,
  decimal, if◌then◌else◌,
}
use durablego.Types.{Workflow, WorkflowStatus, workflow_status_text}

-- counts[k]: 0 of a key that is not there.
abbrev pub count_or_zero : Option ℕ → ℕ
count_or_zero none = 0
count_or_zero (some n) = n

-- The loop that counts.
tally : List Workflow → Map ℕ → Map ℕ
tally [] counts = counts
tally (w ∷ ws) counts = tally ws (
    put (workflow_status_text w.status)
      (suc (count_or_zero (get (workflow_status_text w.status) counts))) counts)

-- strings.Join(lines, "\n"), with the line end that follows.
unfoldable pub join_lines : List String → String
join_lines [] = "\n"
join_lines (l ∷ []) = concat l "\n"
join_lines (l ∷ ls) = concat l (concat "\n" (join_lines ls))

-- durablego_workflows_total{status=%q} %d
unfoldable pub metric_line : ℕ → WorkflowStatus → String
metric_line n s =
    concat "durablego_workflows_total{status=\""
      (concat (workflow_status_text s) (concat "\"} " (decimal n)))

unfoldable pub metric_lines : (WorkflowStatus → ℕ) → List String
metric_lines count =
    "# HELP durablego_workflows_total Workflows by status."
    ∷ "# TYPE durablego_workflows_total gauge"
    ∷ metric_line (count WorkflowStatus.running) WorkflowStatus.running
    ∷ metric_line (count WorkflowStatus.completed) WorkflowStatus.completed
    ∷ metric_line (count WorkflowStatus.failed) WorkflowStatus.failed
    ∷ metric_line (count WorkflowStatus.cancelled) WorkflowStatus.cancelled
    ∷ []

unfoldable pub workflow_metrics : List Workflow → String
unfolding tally
workflow_metrics ws =
    join_lines (metric_lines (λ s. count_or_zero (get (workflow_status_text s) (tally ws []))))

abbrev has_status : WorkflowStatus → WorkflowStatus → Bool
has_status WorkflowStatus.running WorkflowStatus.running = true
has_status WorkflowStatus.completed WorkflowStatus.completed = true
has_status WorkflowStatus.failed WorkflowStatus.failed = true
has_status WorkflowStatus.cancelled WorkflowStatus.cancelled = true
has_status _ _ = false

-- How many of the workflows have the status.
abbrev pub number_with : WorkflowStatus → List Workflow → ℕ
number_with s [] = 0
number_with s (w ∷ ws) =
    let rest = number_with s ws in if has_status w.status s then suc rest else rest

abbrev one_more : WorkflowStatus → WorkflowStatus → ℕ → ℕ
one_more t s n = if has_status t s then suc n else n

-- The lines of the metrics for these numbers of workflows.
abbrev pub lines_of : ℕ → ℕ → ℕ → ℕ → List String
lines_of running completed failed cancelled =
    "# HELP durablego_workflows_total Workflows by status."
    ∷ "# TYPE durablego_workflows_total gauge"
    ∷ concat "durablego_workflows_total{status=\"running\"} " (decimal running)
    ∷ concat "durablego_workflows_total{status=\"completed\"} " (decimal completed)
    ∷ concat "durablego_workflows_total{status=\"failed\"} " (decimal failed)
    ∷ concat "durablego_workflows_total{status=\"cancelled\"} " (decimal cancelled)
    ∷ []
