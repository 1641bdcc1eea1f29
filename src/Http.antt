-- ===== src/Http.antt =====
-- src/http_client.rs and src/http_server.rs: the attempts of a client to send a request, and how the server
-- answers one. The connection and the crates hyper and serde_json are parameters.
pub mod Retries
use gresse.Prelude.{
  ℕ, zero, suc, ◌+◌, ◌≡◌, Bool, true, false, Option, none, some, List, [], ◌∷◌, ite, if◌then◌else◌,
  ltb, Outcome, ok, panic, ◌>>=◌, ℕ_discrete,
}
use gresse.Text.{Text, print_nat}
use gresse.ObjectStorage.{Codec}

abbrev pub max_retries : ℕ
max_retries = 10

-- The errors of serde_json, of sending, and of building a request.
pub data HttpError : Type 0 where
  serde_json : HttpError
  hyper : Text → HttpError
  hyper_http : HttpError

-- `Result<A, HttpError>`.
pub data Result (A : Type 0) : Type 0 where
  done : A → Result A
  failed : HttpError → Result A

-- What one attempt comes to: the body of an answer, an error while it is read, or no answer.
pub data Answer : Type 0 where
  body : Text → Answer
  broken : Text → Answer
  refused : Text → Answer

-- The bytes of a character in UTF-8.
abbrev char_size : ℕ → ℕ
char_size c = if ltb c 128 then 1 else if ltb c 2048 then 2 else if ltb c 65536 then 3 else 4

unfoldable pub byte_length : Text → ℕ
byte_length [] = 0
byte_length (c ∷ text) = char_size c + byte_length text

-- The parts of a request that depend on it.
pub record HttpRequest : Type 0 where
  pub uri : Text
  pub host : Text
  pub content_length : Text
  pub text : Text

pub record HttpClient : Type 0 where
  pub host : Text
  pub uri : Text

module _ {Req Res : Type 0} (requests : Codec Req) (responses : Codec Res) where
  -- `accepted` is whether hyper takes the uri and the headers.
  unfoldable pub build_http_request : (HttpRequest → Bool) → Req → HttpClient → Result HttpRequest
  build_http_request accepted request client = elim (requests.to_string request) [
    | none ↦ failed serde_json
    | some text ↦
        let built : HttpRequest = record {
          uri = client.uri;
          host = client.host;
          content_length = print_nat (byte_length text);
          text = text;
        } in
        if accepted built then done built else failed hyper_http
  ]

  -- The end of the loop that an answer brings.
  abbrev pub response_of : Text → Outcome (Result Res)
  response_of text = elim (responses.from_slice text) [ none ↦ panic | some res ↦ ok (done res) ]

  -- The loop over the attempts from `i` on; it must not run out.
  unfoldable pub send_loop : ℕ → ℕ → (ℕ → Answer) → Outcome (Result Res)
  send_loop zero i answers = panic
  send_loop (suc left) i answers =
      let rest = send_loop left (suc i) answers in
      elim (answers i) [
        | body text ↦ response_of text
        | broken e ↦ ok (failed (hyper e))
        | refused e ↦ ite (ℕ_discrete (suc i) max_retries) (ok (failed (hyper e))) rest
      ]

  abbrev sent : Result HttpRequest → (HttpRequest → ℕ → Answer) → Outcome (Result Res)
  sent (failed e) server = ok (failed e)
  sent (done request) server = send_loop max_retries 0 (server request)

  -- `server` answers the attempts with a request.
  unfoldable pub send :
      (HttpRequest → Bool) → (HttpRequest → ℕ → Answer) → Req → HttpClient → Outcome (Result Res)
  send accepted server request client = sent (build_http_request accepted request client) server

-- `CRDTClientRequest`.
pub data ClientRequest (Q M : Type 0) : Type 0 where
  query : Q → ClientRequest Q M
  mutation : M → ClientRequest Q M

module _ {State Q M R : Type 0} (requests : Codec (ClientRequest Q M)) (replies : Codec R) where
  -- The reply is printed, which must not fail.
  abbrev reply : State → R → Outcome (State × Result Text)
  reply s r = elim (replies.to_string r) [ none ↦ panic | some text ↦ ok (s, done text) ]

  -- Queries read the state, mutations go to the handler of the replica.
  unfoldable pub handle_request :
      (Q → State → R)
      → (M → State → Outcome (State × R))
      → Text
      → State
      → Outcome (State × Result Text)
  handle_request answer mutation_handler text s = elim (requests.from_slice text) [
    | none ↦ ok (s, failed serde_json)
    | some (query q) ↦ reply s (answer q s)
    | some (mutation m) ↦ do r ← mutation_handler m s; reply (r.0) (r.1)
  ]
