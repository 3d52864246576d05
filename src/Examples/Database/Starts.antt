-- ===== src/Examples/Database/Starts.antt =====
-- A workflow of the Postgres backend that is started twice, the second time also by a client.
use durablego.Persistence.Serving.{postgres_backend}
use durablego.Persistence.Retries.{retried_start}
use durablego.Client.{StartWorkflowResponse}
use durablego.Client.{start_workflow as client_start}
use durablego.Client.Exchange.{server_network, received, start_workflow_cases}
use durablego.Examples.Exchanges.{client, order_request, decoders, wire, coding, no_key, carried}
use durablego.Base.{◌≡◌, refl, ap, ◌∙◌, inl, inr, some, true, false, [], ◌∷◌}
use durablego.Types.{WorkflowStatus, Workflow, WorkflowDefinition}
use durablego.Api.Backend.{good}
use durablego.Engine.History.{starts, claims}
use durablego.Persistence.Session.{Postgres}
use durablego.Persistence.Start.{start}
use durablego.Persistence.History.{serve, run}
use durablego.Persistence.Idempotence.{pg_idempotent_start}
use durablego.Examples.{order, validate_step}
use durablego.Examples.Database.{evaluated, database, database-IsReady, opened, returned}

-- What the first call returns.
abbrev first_start : Workflow
first_start = record {
  id = "id-4";
  namespace = "shop";
  name = "order";
  idempotency_key = "k";
  status = WorkflowStatus.running;
  created_at = 1000;
  updated_at = 1000;
}

first_start_good : (start order "k" database).0 ≡ good (first_start, false)
unfolding evaluated
first_start_good = refl

first_start_returned : start order "k" database ≡ (good (first_start, false), opened)
unfolding run serve
first_start_returned = returned (start order "k" database) (first_start, false) first_start_good

-- Another workflow of the same shop.
abbrev refund : WorkflowDefinition
refund = record { name = "refund"; namespace = "shop"; activities = validate_step ∷ [] }

-- A claim, the other start under the same key, and what it leaves.
abbrev claimed_once : Postgres
claimed_once = run (claims "a" "default" ∷ []) opened

second_start_good : (start refund "k" claimed_once).0 ≡ good (first_start, true)
unfolding evaluated
second_start_good = refl

second_start_returned :
    start refund "k" claimed_once
    ≡ (good (first_start, true), run (starts refund "k" ∷ []) claimed_once)
unfolding run serve
second_start_returned =
    returned (start refund "k" claimed_once) (first_start, true) second_start_good

pg_idempotent_start_example :
    (first_start.id ≡ first_start.id)
    × (true ≡ true)
    × ((run (starts refund "k" ∷ []) claimed_once).committed ≡ claimed_once.committed)
pg_idempotent_start_example =
    pg_idempotent_start order refund "k" first_start first_start false true
      (claims "a" "default" ∷ []) database opened (run (starts refund "k" ∷ []) claimed_once)
      database-IsReady refl first_start_returned refl second_start_returned

-- The same order again, over HTTP.
abbrev repeated : Postgres
repeated = run (starts order "k" ∷ []) claimed_once

repeated_good : (start order "k" claimed_once).0 ≡ good (first_start, true)
unfolding evaluated
repeated_good = refl

repeated_returned : start order "k" claimed_once ≡ (good (first_start, true), repeated)
unfolding run serve
repeated_returned = returned (start order "k" claimed_once) (first_start, true) repeated_good

abbrev first_response : StartWorkflowResponse
first_response = record { workflow = first_start; duplicate = true }

response_received :
    client_start
      (server_network wire postgres_backend decoders no_key)
      coding
      client
      order_request
      claimed_once
    ≡ some (inr first_response, repeated)
response_received =
    elim (start_workflow_cases wire postgres_backend decoders no_key coding client order_request
      claimed_once carried) [
        | inl (_, e) ↦ e ∙ ap (λ o. received "400 Bad Request" (some o)) repeated_returned
        | inr (keyed, _) ↦ absurd (keyed refl)
      ]

retried_start_example :
    (first_start.id ≡ first_start.id)
    × (true ≡ true)
    × (repeated.committed ≡ claimed_once.committed)
retried_start_example =
    retried_start wire decoders no_key coding client order_request order first_start false
      first_response (claims "a" "default" ∷ []) database opened repeated database-IsReady refl
      carried first_start_returned refl response_received
