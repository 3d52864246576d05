-- ===== src/Examples/Exchanges.antt =====
-- The Go client against the server over the engine.
use durablego.Base.{
  String, ◌≡◌, ◌≢◌, refl, ◌⊎◌, inl, inr, List, [], ◌∷◌, none, some, if◌then◌else◌, ◌==◌, text_eq,
}
use durablego.Engine.State.{Engine}
use durablego.Api.Backend.{Backend, engine_backend}
use durablego.Api.Messages.{start_workflow, Decoders, Body, started_body}
use durablego.Client.{
  Client, StartWorkflowRequest, StartWorkflowResponse, Coding, trim_slashes,
  start_workflow as client_start,
}
use durablego.Client.Exchange.{Wire, Carries, server_network, received, start_workflow_cases}
use durablego.Examples.{order, fresh}

abbrev pub client : Client
client = record { base_url = "http://localhost:8080//" }

trimmed : trim_slashes "http://localhost:8080//" ≡ "http://localhost:8080"
unfolding trim_slashes
trimmed = refl

abbrev pub order_request : StartWorkflowRequest
order_request = record {
  namespace = order.namespace;
  name = order.name;
  idempotency_key = "k";
  activities = order.activities;
}

abbrev pub decoders : Decoders
decoders = record {
  start = λ _. inr (record {
    namespace = order.namespace;
    name = order.name;
    idempotency_key = "k";
    activities = order.activities;
  });
  poll = λ _. inl "unexpected EOF";
  lease = λ _. inl "unexpected EOF";
  fail = λ _. inl "unexpected EOF";
}

abbrev header : String → List (String × String) → String
header key [] = ""
header key ((k, v) ∷ rest) = if text_eq k key then v else header key rest

abbrev pub wire : Wire Body
wire = record {
  route = λ m. some (start_workflow m.body);
  header = header;
  unmatched = λ _. record {
    status_code = 404;
    status = "404 Not Found";
    body = Body.text_body "404 page not found";
  };
  status_line = λ n. if n == 401 then "401 Unauthorized" else "400 Bad Request";
  written = λ b. b;
  new_request = λ _ _. none;
}

abbrev read_body : Body → String ⊎ StartWorkflowResponse
read_body (started_body w duplicate) = inr (record { workflow = w; duplicate = duplicate })
read_body _ = inl "unexpected EOF"

abbrev pub coding : Coding Body StartWorkflowRequest StartWorkflowResponse
coding = record { encode = λ _. inr "{}"; decode = read_body }

abbrev backend : Backend Engine
backend = engine_backend (λ ws. ws)

pub carried : Carries wire decoders coding client order_request
carried = record {
  body = "{}";
  encodes = refl;
  decodes = refl;
  decodes_started = λ w duplicate. refl;
  url_is_valid = refl;
  sets_no_key = refl;
  routes = refl;
}

abbrev pub no_key : String
no_key = ""

start_workflow_cases_example :
    ((no_key ≡ "")
      × (client_start
            (server_network wire backend decoders no_key)
            coding
            client
            order_request
            fresh
          ≡ received "400 Bad Request" (backend.start order "k" fresh)))
    ⊎ ((no_key ≢ "")
        × (client_start
              (server_network wire backend decoders no_key)
              coding
              client
              order_request
              fresh
            ≡ some (inl "durablego: 401 Unauthorized", fresh)))
start_workflow_cases_example =
    start_workflow_cases wire backend decoders no_key coding client order_request fresh carried
