-- ===== src/Api/Safety.antt =====
-- The server over the engine answers every request, and the engine's invariant is kept.
use durablego.Base.{
  String, ◌≡◌, refl, ◌∙◌, ◌⊎◌, inl, inr, List, [], ◌∷◌, Option, none, some, Map, get, All, All-map,
}
use durablego.Types.{Workflow, Activity, Err, Result, ok, err}
use durablego.Board.{ids_of}
use durablego.Engine.State.{Engine, ◌>>=◌, try_gets}
use durablego.Engine.Reads.{rows, workflow_found, workflow, list_workflows as engine_list}
use durablego.Engine.Start.Steps.{start-Lawful}
use durablego.Engine.Claim.Steps.{claim-Lawful}
use durablego.Engine.Lease.Steps.{heartbeat-Lawful, complete-Lawful, fail-Lawful}
use durablego.Engine.Cancel.Steps.{cancel-Lawful}
use durablego.Engine.Steps.{here}
use durablego.Engine.Steps.Valid.{EngineIsValid, Steps-IsValid}
use durablego.Engine.Steps.Lawful.{Lawful, lawful, Lawful-run}
use durablego.Api.Backend.{Failure, engine_backend, reply_of, unit_reply_of}
use durablego.Api.Messages.{
  Route, healthz, readyz, list_workflows, metrics, get_workflow, cancel_workflow, start_workflow,
  poll, heartbeat, complete, fail, Request, Decoders, Response,
}
use durablego.Api.Server.{respond, decoded, handle, serve_http}
use durablego.Api.Access.{serve_http_cases}

rows_of_known :
    (m : Map Activity) (ids : List String)
    → All (λ id. (a : Activity) × (get id m ≡ some a)) ids
    → (as' : List Activity) × (rows m ids ≡ some as')
unfolding rows
rows_of_known m [] k = ([], refl)
rows_of_known m (id ∷ ids) ((a, h), k) =
    let (as', r) = rows_of_known m ids k in (a ∷ as', rw (h, rows) (rw r refl))

workflow_found-Lawful :
    (id : String) (o : Option Workflow) (e : Engine)
    → EngineIsValid e
    → Lawful e (workflow_found id o e)
unfolding workflow_found
workflow_found-Lawful id none e v = lawful here
workflow_found-Lawful id (some w) e v =
    let (as', r) =
      rows_of_known e.activities (ids_of e.board id)
        (All-map (ids_of e.board id) (λ i (u, h, _). (u, h)) (v.rows.listed id)) in
    rw (r, ◌>>=◌, try_gets) (lawful here)

workflow-Lawful : (id : String) (e : Engine) → EngineIsValid e → Lawful e (workflow id e)
unfolding workflow
workflow-Lawful id e v = workflow_found-Lawful id (get id e.workflows) e v

list-Lawful :
    (arrange : List Workflow → List Workflow) (e : Engine) → Lawful e (engine_list arrange e)
unfolding engine_list
list-Lawful arrange e = lawful here

module _ {A : Type 0} (on_good : A → Response) (on_bad : Failure → Response) {e : Engine} where
  respond-Lawful :
      {o : Option (Result A × Engine)} → Lawful e o → Lawful e (respond on_good on_bad (reply_of o))
  unfolding respond
  respond-Lawful (lawful {a = ok _} s) = lawful s
  respond-Lawful (lawful {a = err _} s) = lawful s

module _ (on_good : Unit {0} → Response) (on_bad : Failure → Response) {e : Engine} where
  respond-unit-Lawful :
      {o : Option (Option Err × Engine)}
      → Lawful e o
      → Lawful e (respond on_good on_bad (unit_reply_of o))
  unfolding respond
  respond-unit-Lawful (lawful {a = none} s) = lawful s
  respond-unit-Lawful (lawful {a = some _} s) = lawful s

decoded-Lawful :
    {A : Type 0} (o : String ⊎ A) (next : A → Engine → Option (Response × Engine)) (e : Engine)
    → ((a : A) → Lawful e (next a e))
    → Lawful e (decoded o next e)
unfolding decoded
decoded-Lawful (inl _) next e k = lawful here
decoded-Lawful (inr a) next e k = k a

handle-Lawful :
    (arrange : List Workflow → List Workflow) (decoders : Decoders) (r : Route) (e : Engine)
    → EngineIsValid e
    → Lawful e (handle (engine_backend arrange) decoders r e)
unfolding handle respond
handle-Lawful arrange d healthz e v = lawful here
handle-Lawful arrange d readyz e v = lawful here
handle-Lawful arrange d list_workflows e v = respond-Lawful _ _ (list-Lawful arrange e)
handle-Lawful arrange d metrics e v = respond-Lawful _ _ (list-Lawful arrange e)
handle-Lawful arrange d (get_workflow id) e v = respond-Lawful _ _ (workflow-Lawful id e v)
handle-Lawful arrange d (cancel_workflow id) e v = respond-unit-Lawful _ _ (cancel-Lawful id e v)
handle-Lawful arrange d (start_workflow body) e v =
    decoded-Lawful (d.start body) _ e
      (λ q. respond-Lawful _ _ (start-Lawful _ q.idempotency_key e v))
handle-Lawful arrange d (poll body) e v =
    decoded-Lawful (d.poll body) _ e
      (λ q. respond-Lawful _ _ (claim-Lawful q.worker_id q.task_queue e))
handle-Lawful arrange d (heartbeat body) e v =
    decoded-Lawful (d.lease body) _ e (λ q.
      respond-unit-Lawful _ _ (heartbeat-Lawful q.activity_id q.worker_id q.fencing_token e v))
handle-Lawful arrange d (complete body) e v =
    decoded-Lawful (d.lease body) _ e
      (λ q. respond-unit-Lawful _ _ (complete-Lawful q.activity_id q.worker_id q.fencing_token e v))
handle-Lawful arrange d (fail body) e v = decoded-Lawful (d.fail body) _ e (λ q.
    respond-unit-Lawful _ _ (
      fail-Lawful q.lease.activity_id q.lease.worker_id q.lease.fencing_token q.retryable q.message
        e v))

-- The server over the engine answers every request, with no nil dereference, whatever its route, body
-- and header, and leaves an engine that satisfies the invariant.
pub serve_http-IsValid :
    (arrange : List Workflow → List Workflow) (decoders : Decoders) (api_key : String) (r : Request)
    (e : Engine)
    → EngineIsValid e
    → (answer : Response) × (f : Engine) × (serve_http (engine_backend arrange) decoders api_key r e
        ≡ some (answer, f))
      × EngineIsValid f
serve_http-IsValid arrange d api_key r e v =
    elim (serve_http_cases (engine_backend arrange) d api_key r e) [
      | inr (_, _, refused) ↦ (_, e, refused, v)
      | inl (_, same) ↦
          let (answer, f, h, s) = Lawful-run (handle-Lawful arrange d r.route e v) in
          (answer, f, same ∙ h, Steps-IsValid e s v)
    ]
