-- ===== src/Persistence/Completion/Outcome.antt =====
-- What a Complete leaves of the tables, but for the events.
use durablego.Base.{ℕ, String, ◌≡◌, refl, sym, ap, ◌∙◌, [], none, text_eq}
use durablego.Types.{ActivityStatus, WorkflowStatus}
use durablego.Persistence.Tables.{ActivityRow, Tables, update_where}
use durablego.Persistence.Helpers.{is_blocked, is_due, made_ready, is_done, set_status}

-- The tables without the events.
abbrev pub but_events : Tables → Tables
but_events t = record t { events = [] }

-- A row that is completed at the time `now`.
abbrev pub completed_at : ℕ → ActivityRow → ActivityRow
completed_at now a = record a {
  status = ActivityStatus.completed;
  lease_owner = none;
  updated_at = now;
}

unfoldable pub done_row : ℕ → String → Tables → Tables
done_row now id t = record t {
  activities = update_where (λ (a : ActivityRow). text_eq a.id id) (completed_at now) t.activities;
}

-- The waiting activities of the workflow that are due are made ready.
unfoldable pub released : ℕ → String → Tables → Tables
released now wid t = record t {
  activities = update_where (is_due now wid t) (made_ready now) t.activities;
}

-- A running workflow is completed if all its activities are.
unfoldable pub closed : ℕ → String → Tables → Tables
closed now wid t = record t {
  workflows = update_where (is_done wid t) (set_status WorkflowStatus.completed now) t.workflows;
}

pub done_row-but_events :
    (now : ℕ) (id : String) (t : Tables)
    → done_row now id (but_events t) ≡ but_events (done_row now id t)
unfolding done_row
done_row-but_events now id t = refl

pub released-but_events :
    (now : ℕ) (wid : String) (t : Tables)
    → released now wid (but_events t) ≡ but_events (released now wid t)
unfolding released is_due is_blocked
released-but_events now wid t = refl

pub closed-but_events :
    (now : ℕ) (wid : String) (t : Tables)
    → closed now wid (but_events t) ≡ but_events (closed now wid t)
unfolding closed is_done
closed-but_events now wid t = refl

-- A change that does not look at the events makes of a view what it makes of the tables.
pub seen_alike :
    (f : ℕ → Tables → Tables) (k now : ℕ) (v t : Tables)
    → ((u : Tables) → f now (but_events u) ≡ but_events (f now u))
    → k ≡ now
    → but_events v ≡ but_events t
    → but_events (f k v) ≡ but_events (f now t)
seen_alike f k now v t blind e h =
    ap (λ n. but_events (f n v)) e ∙ sym (blind v) ∙ ap (f now) h ∙ blind t

-- What Complete makes of the tables, for an activity of a workflow.
abbrev pub finished : ℕ → String → String → Tables → Tables
finished now id wid t = closed now wid (released now wid (done_row now id t))
