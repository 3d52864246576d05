-- ===== src/Client/Exchange.antt =====
-- The client's StartWorkflow against the server of internal/api.
use durablego.Base.{
  ℕ, String, ◌≡◌, ◌≢◌, refl, ap, ◌∙◌, Bool, true, false, List, Option, none, some, ◌⊎◌, inl, inr,
  concat, arith,
}
use Prim.Native.String
use text.Mathlib.TextLemmas.{length-append}
use durablego.Types.{Workflow}
use durablego.Api.Backend.{failure_text, Reply, good, bad, Backend}
use durablego.Api.Messages.{
  Route, start_workflow, Decoders, Body, started_body, error_body, Response, http_bad_request,
  http_unauthorized, write_json, write_error,
}
use durablego.Api.Server.{respond, decoded, started_response, handle, serve_http}
use durablego.Api.Access.{Reads, HasKey, serve_http_cases}
use durablego.Client.{
  Client, StartWorkflowRequest, StartWorkflowResponse, Message, HttpResponse, Coding, Network,
  request_of, read_response, answered, send_request, encoded, do_request,
}
use durablego.Client.{start_workflow as client_start}

-- What net/http and encoding/json do on the server's side: the pattern and the body or the id of a
-- request, Header.Get, the answer where there is no pattern, res.Status of a code, and the text of a body; and
-- http.NewRequestWithContext on the client's.
pub record Wire (Doc : Type 0) : Type 0 where
  pub route : Message → Option Route
  pub header : String → List (String × String) → String
  pub unmatched : Message → HttpResponse Doc
  pub status_line : ℕ → String
  pub written : Body → Doc
  pub new_request : String → String → Option String

module _ {Doc S : Type 0} (wire : Wire Doc) (backend : Backend S) (decoders : Decoders)
    (api_key : String) where
  abbrev pub on_wire : Response → HttpResponse Doc
  on_wire r = record {
    status_code = r.status;
    status = wire.status_line r.status;
    body = wire.written r.body;
  }

  abbrev pub delivered : Option (Response × S) → Option ((String ⊎ HttpResponse Doc) × S)
  delivered none = none
  delivered (some (r, s)) = some (inr (on_wire r), s)

  abbrev pub routed : Message → Option Route → S → Option ((String ⊎ HttpResponse Doc) × S)
  routed m none s = some (inr (wire.unmatched m), s)
  routed m (some route) s = delivered (
      serve_http backend decoders api_key
        (record { authorization = wire.header "Authorization" m.headers; route = route }) s)

  -- A network on which every request reaches this server, and every answer the client.
  abbrev pub server_network : Network Doc S
  server_network = record {
    new_request = wire.new_request;
    send = λ m s. routed m (wire.route m) s;
  }

-- The result of StartWorkflow for what the backend's Start gave.
abbrev pub received :
    {S : Type 0}
    → String
    → Option (Reply (Workflow × Bool) × S)
    → Option ((String ⊎ StartWorkflowResponse) × S)
received refusal none = none
received refusal (some (good (w, duplicate), s)) =
    some (inr (record { workflow = w; duplicate = duplicate }), s)
received refusal (some (bad x, s)) = some (inl (concat "durablego: " refusal), s)

-- What JSON and net/http do with a StartWorkflow of this client, as both sides document it: the body is
-- decoded to what was encoded, the answer likewise, the URL is valid, a header that was not set is empty, and the mux
-- finds the pattern.
pub record Carries {Doc : Type 0} (wire : Wire Doc) (decoders : Decoders)
    (coding : Coding Doc StartWorkflowRequest StartWorkflowResponse) (c : Client)
    (req : StartWorkflowRequest) : Type 0 where
  pub body : String
  pub encodes : coding.encode req ≡ inr body
  pub decodes :
      decoders.start body
      ≡ inr (record {
        namespace = req.namespace;
        name = req.name;
        idempotency_key = req.idempotency_key;
        activities = req.activities;
      })
  pub decodes_started :
      (w : Workflow) (duplicate : Bool)
      → coding.decode (wire.written (started_body w duplicate))
        ≡ inr (record { workflow = w; duplicate = duplicate })
  pub url_is_valid : wire.new_request "POST" (request_of c "POST" "/v1/workflows" body).url ≡ none
  pub sets_no_key :
      wire.header "Authorization" (request_of c "POST" "/v1/workflows" body).headers ≡ ""
  pub routes : wire.route (request_of c "POST" "/v1/workflows" body) ≡ some (start_workflow body)

keyless : (api_key body : String) → Reads (start_workflow body) ⊎ HasKey api_key "" → api_key ≡ ""
keyless api_key body (inl never) = absurd never
keyless api_key body (inr (inl e)) = e
keyless api_key body (inr (inr e)) =
    absurd (omega (arith, ap String.count e, length-append "Bearer " api_key))

module _ {Doc S : Type 0} (wire : Wire Doc) (backend : Backend S) (decoders : Decoders)
    (api_key : String) (coding : Coding Doc StartWorkflowRequest StartWorkflowResponse) where
  network : Network Doc S
  network = server_network wire backend decoders api_key

  -- What the client makes of the server's answer.
  read : Option (Response × S) → Option ((String ⊎ StartWorkflowResponse) × S)
  read o = answered network coding (delivered wire backend decoders api_key o)

  sent_as :
      (c : Client) (req : StartWorkflowRequest) (s : S) (k : Carries wire decoders coding c req)
      → client_start network coding c req s
        ≡ read (
            serve_http backend decoders api_key
              (record { authorization = ""; route = start_workflow k.body })
              s)
  unfolding read network client_start do_request encoded send_request
  sent_as c req s k = rw (k.encodes, k.url_is_valid, k.routes, k.sets_no_key) refl

  read_started :
      (c : Client) (req : StartWorkflowRequest) (k : Carries wire decoders coding c req)
      (o : Option (Reply (Workflow × Bool) × S))
      → read (respond started_response (λ x. write_error http_bad_request (failure_text x)) o)
        ≡ received (wire.status_line http_bad_request) o
  unfolding read answered read_response respond started_response write_json write_error
  read_started c req k none = refl
  read_started c req k (some (good (w, true), s)) = rw (k.decodes_started w true) refl
  read_started c req k (some (good (w, false), s)) = rw (k.decodes_started w false) refl
  read_started c req k (some (bad x, s)) = refl

  handled_as :
      (c : Client) (req : StartWorkflowRequest) (s : S) (k : Carries wire decoders coding c req)
      → read (handle backend decoders (start_workflow k.body) s)
        ≡ received (wire.status_line http_bad_request) (
            backend.start
              (record { namespace = req.namespace; name = req.name; activities = req.activities })
              req.idempotency_key
              s)
  unfolding handle decoded
  handled_as c req s k = rw k.decodes (read_started c req k _)

  read_refused :
      {s : S}
      → read (some (write_json http_unauthorized (error_body "invalid api key"), s))
        ≡ some (inl (concat "durablego: " (wire.status_line http_unauthorized)), s)
  unfolding read answered read_response write_json
  read_refused = refl

  -- Over a network that carries it, a StartWorkflow of the client to a server without a key returns what
  -- the backend's Start returned: the workflow, and whether it is a duplicate; or, for any error,
  -- only the status line of 400. If the server has a key, the call fails with the status line of 401
  -- and the backend is not called, since the client shows no key.
  pub start_workflow_cases :
      (c : Client) (req : StartWorkflowRequest) (s : S)
      → Carries wire decoders coding c req
      → ((api_key ≡ "")
          × (client_start (server_network wire backend decoders api_key) coding c req s
              ≡ received (wire.status_line http_bad_request) (
                  backend.start
                    (record {
                      namespace = req.namespace;
                      name = req.name;
                      activities = req.activities;
                    })
                    req.idempotency_key
                    s)))
        ⊎ ((api_key ≢ "")
            × (client_start (server_network wire backend decoders api_key) coding c req s
                ≡ some (inl (concat "durablego: " (wire.status_line http_unauthorized)), s)))
  unfolding network
  start_workflow_cases c req s k =
      elim (serve_http_cases backend decoders api_key
        (record { authorization = ""; route = start_workflow k.body }) s) [
          | inl (access, e) ↦
              inl (
                keyless api_key k.body access,
                sent_as c req s k ∙ ap read e ∙ handled_as c req s k,
              )
          | inr (_, hidden, e) ↦
              inr (λ none_set. hidden (inl none_set), sent_as c req s k ∙ ap read e ∙ read_refused)
        ]
