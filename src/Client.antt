-- ===== src/Client.antt =====
-- pkg/client/client.go: the Go client, and what it gets from the server of internal/api. What
-- net/http and encoding/json do is a parameter, and so is the type `Doc` of the texts that the server
-- answers with. An error is its text.
pub mod Exchange
use durablego.Base.{
  ℕ, String, ◌&&◌, ◌==◌, List, [], ◌∷◌, Option, none, some, ◌⊎◌, inl, inr, text_eq, concat, leb,
  if◌then◌else◌, Bool,
}
use Prim.Native.Char.{Char, code}
use Prim.Native.String.{[] as nil}
use Prim.Native.String
use durablego.Types.{ActivityDefinition, Workflow}

-- The HTTPClient, or the one with a timeout that stands in for nil, is the network below.
pub record Client : Type 0 where
  pub base_url : String

pub record StartWorkflowRequest : Type 0 where
  pub namespace : String
  pub name : String
  pub idempotency_key : String
  pub activities : List ActivityDefinition

pub record StartWorkflowResponse : Type 0 where
  pub workflow : Workflow
  pub duplicate : Bool

-- An http.Request, and an http.Response whose body has been read.
pub record Message : Type 0 where
  pub method : String
  pub url : String
  pub headers : List (String × String)
  pub body : String

pub record HttpResponse (Doc : Type 0) : Type 0 where
  pub status_code : ℕ
  pub status : String
  pub body : Doc

-- json.NewEncoder(&body).Encode(in) and json.NewDecoder(res.Body).Decode(out): an error, or the value.
pub record Coding (Doc In Out : Type 0) : Type 0 where
  pub encode : In → String ⊎ String
  pub decode : Doc → String ⊎ Out

-- http.NewRequestWithContext, which gives an error or none, and httpClient.Do, which changes what lies
-- behind the network; `none` where that panics.
pub record Network (Doc S : Type 0) : Type 0 where
  pub new_request : String → String → Option String
  pub send : Message → S → Option ((String ⊎ HttpResponse Doc) × S)

-- strings.TrimRight(s, "/")
unfoldable pub trim_slashes : String → String
trim_slashes nil = ""
trim_slashes (String.◌∷◌ c s) =
    let rest = trim_slashes s in if text_eq rest "" && code c == 47 then "" else String.◌∷◌ c rest

abbrev pub request_of : Client → String → String → String → Message
request_of c method path body = record {
  method = method;
  url = concat (trim_slashes c.base_url) path;
  headers = ("Content-Type", "application/json") ∷ [];
  body = body;
}

module _ {Doc S In Out : Type 0} (network : Network Doc S) (coding : Coding Doc In Out) where
  -- The end of do, once there is a response.
  unfoldable pub read_response : HttpResponse Doc → String ⊎ Out
  read_response res =
      if leb 300 res.status_code
      then inl (concat "durablego: " res.status)
      else coding.decode res.body

  unfoldable pub answered : Option ((String ⊎ HttpResponse Doc) × S) → Option ((String ⊎ Out) × S)
  unfolding read_response
  answered none = none
  answered (some (inl text, s)) = some (inl text, s)
  answered (some (inr res, s)) = some (read_response res, s)

  unfoldable pub send_request : Option String → Message → S → Option ((String ⊎ Out) × S)
  unfolding answered
  send_request (some text) message s = some (inl text, s)
  send_request none message s = answered (network.send message s)

  unfoldable pub encoded :
      Client → String → String → String ⊎ String → S → Option ((String ⊎ Out) × S)
  unfolding send_request
  encoded c method path (inl text) s = some (inl text, s)
  encoded c method path (inr body) s =
      let message = request_of c method path body in
      send_request (network.new_request method message.url) message s

  -- do
  unfoldable pub do_request : Client → String → String → In → S → Option ((String ⊎ Out) × S)
  unfolding encoded
  do_request c method path input s = encoded c method path (coding.encode input) s

unfoldable pub start_workflow :
    {Doc S : Type 0}
    → Network Doc S
    → Coding Doc StartWorkflowRequest StartWorkflowResponse
    → Client
    → StartWorkflowRequest
    → S
    → Option ((String ⊎ StartWorkflowResponse) × S)
unfolding do_request
start_workflow network coding c req s = do_request network coding c "POST" "/v1/workflows" req s
