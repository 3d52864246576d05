-- ===== src/Persistence/Retries.antt =====
-- A client that repeats its StartWorkflow at the API server over the Postgres backend, because the
-- first answer did not reach it.
use durablego.Base.{
  String, ◌≡◌, sym, ap, ◌∙◌, ◌⊎◌, inl, inr, Bool, true, false, List, Option, some, text_eq,
}
use durablego.Types.{WorkflowDefinition, Workflow}
use durablego.Api.Backend.{Reply, good, bad}
use durablego.Api.Messages.{Decoders}
use durablego.Engine.History.{Call}
use durablego.Persistence.Session.{Postgres}
use durablego.Persistence.Start.{start}
use durablego.Persistence.History.{run}
use durablego.Persistence.History.Safety.{IsReady}
use durablego.Persistence.Idempotence.{pg_idempotent_start}
use durablego.Persistence.Serving.{postgres_backend}
use durablego.Client.{Client, StartWorkflowRequest, StartWorkflowResponse, Coding}
use durablego.Client.{start_workflow as client_start}
use durablego.Client.Exchange.{Wire, Carries, server_network, received, start_workflow_cases}

-- The definition that the server makes of a request.
abbrev pub definition_of : StartWorkflowRequest → WorkflowDefinition
definition_of req = record {
  namespace = req.namespace;
  name = req.name;
  activities = req.activities;
}

-- What Start returned, read from what was received; `o` where no workflow was.
abbrev sent :
    Reply (Workflow × Bool) × Postgres
    → Option ((String ⊎ StartWorkflowResponse) × Postgres)
    → Reply (Workflow × Bool) × Postgres
sent o (some (inr r, q)) = (good (r.workflow, r.duplicate), q)
sent o _ = o

-- A workflow that was received is the one that Start returned.
received-good :
    (refusal : String) (o : Reply (Workflow × Bool) × Postgres) (r : StartWorkflowResponse)
    (q : Postgres)
    → received refusal (some o) ≡ some (inr r, q)
    → o ≡ (good (r.workflow, r.duplicate), q)
received-good refusal (good (w, duplicate), s) r q e = ap (sent (good (w, duplicate), s)) e
received-good refusal (bad x, s) r q e = absurd (cc)

-- After a successful Start of the Postgres backend, whether or not its answer reached anyone, and any
-- further history, in which any calls of the driver may fail: if a client's StartWorkflow with the same
-- namespace and key, over a network that carries it to a server with any API key, returns no
-- error, then it returns the workflow of the first Start, marked as a duplicate, and nothing changes.
pub retried_start :
    {Doc : Type 0} (wire : Wire Doc) (decoders : Decoders) (api_key : String)
    (coding : Coding Doc StartWorkflowRequest StartWorkflowResponse) (c : Client)
    (req : StartWorkflowRequest) (d : WorkflowDefinition) (w : Workflow) (dup : Bool)
    (r : StartWorkflowResponse) (cs : List Call) (p q s : Postgres)
    → IsReady p
    → text_eq req.idempotency_key "" ≡ false
    → Carries wire decoders coding c req
    → start d req.idempotency_key p ≡ (good (w, dup), q)
    → req.namespace ≡ d.namespace
    → client_start (server_network wire postgres_backend decoders api_key) coding c req (run cs q)
      ≡ some (inr r, s)
    → (r.workflow.id ≡ w.id) × (r.duplicate ≡ true) × (s.committed ≡ (run cs q).committed)
retried_start wire decoders api_key coding c req d w dup r cs p q s ready keyed k first same again =
    elim (start_workflow_cases wire postgres_backend decoders api_key coding c req (run cs q) k) [
      | inl (_, e) ↦
          pg_idempotent_start d (definition_of req) req.idempotency_key w r.workflow dup r.duplicate
            cs p q s ready keyed first same (received-good _ _ r s (sym e ∙ again))
      | inr (_, e) ↦ absurd (cc)
    ]
