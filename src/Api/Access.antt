-- ===== src/Api/Access.antt =====
-- Who may change anything over HTTP, and what the lease calls answer.
use durablego.Base.{
  ℕ, String, ◌≡◌, refl, ◌⊎◌, inl, inr, true, false, Option, some, text_eq, text_eq_iff, concat,
  arith, Bool-cases,
}
use durablego.Engine.State.{Engine}
use durablego.Engine.Lease.{
  heartbeat as engine_heartbeat, complete as engine_complete, fail as engine_fail,
}
use durablego.Engine.Lease.Fencing.{HoldsLease}
use durablego.Api.Backend.{Backend}
use durablego.Api.Messages.{
  Route, healthz, readyz, list_workflows, metrics, get_workflow, cancel_workflow, start_workflow,
  poll, heartbeat, complete, fail, Request, Decoders, error_body, Response, http_unauthorized,
  http_bad_request, http_not_found, http_conflict, write_json, no_content,
}
use durablego.Api.Server.{handle, is_mutation, is_refused, serve_http}

-- The key that a caller must show is shown, or there is none to show.
abbrev pub HasKey : String → String → Type 0
HasKey api_key header = (api_key ≡ "") ⊎ (header ≡ concat "Bearer " api_key)

is_refused_cases :
    (api_key header : String)
    → (HasKey api_key header × (is_refused api_key header ≡ false))
      ⊎ (¬ HasKey api_key header × (is_refused api_key header ≡ true))
unfolding is_refused
is_refused_cases api_key header = elim (Bool-cases (text_eq api_key "")) [
  | inl keyless ↦ inl (inl ((text_eq_iff api_key "").0 keyless), ground arith)
  | inr keyed ↦ elim (Bool-cases (text_eq header (concat "Bearer " api_key))) [
    | inl shown ↦ inl (inr ((text_eq_iff header (concat "Bearer " api_key)).0 shown), ground arith)
    | inr hidden ↦ inr (
      λ k. elim k [
        | inl e ↦ absurd (ground (arith, (text_eq_iff api_key "").1 e))
        | inr e ↦ absurd (ground (arith, (text_eq_iff header (concat "Bearer " api_key)).1 e))
      ],
      ground arith,
    )
  ]
]

-- The routes that only read.
abbrev pub Reads : Route → Type 0
Reads healthz = Unit
Reads readyz = Unit
Reads list_workflows = Unit
Reads metrics = Unit
Reads (get_workflow _) = Unit
Reads (start_workflow _) = ⊥
Reads (cancel_workflow _) = ⊥
Reads (poll _) = ⊥
Reads (heartbeat _) = ⊥
Reads (complete _) = ⊥
Reads (fail _) = ⊥

-- The routes that change something.
abbrev pub Mutates : Route → Type 0
Mutates healthz = ⊥
Mutates readyz = ⊥
Mutates list_workflows = ⊥
Mutates metrics = ⊥
Mutates (get_workflow _) = ⊥
Mutates (start_workflow _) = Unit
Mutates (cancel_workflow _) = Unit
Mutates (poll _) = Unit
Mutates (heartbeat _) = Unit
Mutates (complete _) = Unit
Mutates (fail _) = Unit

is_mutation_cases :
    (r : Route) → ((is_mutation r ≡ true) × Mutates r) ⊎ ((is_mutation r ≡ false) × Reads r)
unfolding is_mutation
is_mutation_cases healthz = inr (refl, tt)
is_mutation_cases readyz = inr (refl, tt)
is_mutation_cases list_workflows = inr (refl, tt)
is_mutation_cases (get_workflow id) = inr (refl, tt)
is_mutation_cases metrics = inr (refl, tt)
is_mutation_cases (start_workflow body) = inl (refl, tt)
is_mutation_cases (cancel_workflow id) = inl (refl, tt)
is_mutation_cases (poll body) = inl (refl, tt)
is_mutation_cases (heartbeat body) = inl (refl, tt)
is_mutation_cases (complete body) = inl (refl, tt)
is_mutation_cases (fail body) = inl (refl, tt)

-- Start, cancel, poll, heartbeat, complete and fail are served only to a caller who shows the server's
-- key, if the server has one: every other caller is answered with 401, and the backend is not called.
-- Whoever shows the key is answered as the route's handler answers, and so is everyone at the routes for
-- health, readiness, the metrics, the list of workflows and one workflow.
pub serve_http_cases :
    {S : Type 0} (backend : Backend S) (decoders : Decoders) (api_key : String) (r : Request)
    (s : S)
    → ((Reads r.route ⊎ HasKey api_key r.authorization)
        × (serve_http backend decoders api_key r s ≡ handle backend decoders r.route s))
      ⊎ (Mutates r.route
          × ¬ HasKey api_key r.authorization
          × (serve_http backend decoders api_key r s
              ≡ some (write_json http_unauthorized (error_body "invalid api key"), s)))
unfolding serve_http
serve_http_cases backend decoders api_key r s = elim (is_mutation_cases r.route) [
  | inr (reads, kind) ↦ inl (inl kind, rw reads refl)
  | inl (mutates, kind) ↦ elim (is_refused_cases api_key r.authorization) [
    | inl (k, h) ↦ inl (inr k, rw (mutates, h) refl)
    | inr (n, h) ↦ inr (kind, n, rw (mutates, h) refl)
  ]
]

-- The holder of the lease is answered with 204, and anyone else with 400, 404 or 409, no row changed.
abbrev pub AnswersHolder :
    (Engine → Option (Response × Engine)) → String → String → ℕ → Engine → Type 0
AnswersHolder call id worker token e =
    (HoldsLease id worker token e × ((f : Engine) × (call e ≡ some (no_content, f))))
    ⊎ (¬ HoldsLease id worker token e
        × ((r : Response) × (f : Engine) × (call e ≡ some (r, f))
            × (f.board ≡ e.board)
            × ((r.status ≡ http_bad_request)
                ⊎ (r.status ≡ http_not_found)
                ⊎ (r.status ≡ http_conflict))))
