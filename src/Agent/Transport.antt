-- ===== src/Agent/Transport.antt =====
-- internal/transport/http.go, direct.go and fronted.go: the requests of the agent to the backend, and where
-- they go. The JSON codec and the connections are parameters.
pub mod Laws
use pingachock.Base.{
  ◌&&◌, take, is_empty, ◌==◌, not, [], leb, none, ◌++◌, some, ◌∷◌, codes, if◌then◌else◌, Bytes,
  String, Option, ℕ, List,
}
use pingachock.Agent.Config.{Config}
use pingachock.Api.Agent.{ResultSubmission}
use pingachock.Probe.Address.{Ip}
use pingachock.Agent.State.{Job}

-- `HTTPTransport` with the connection of its client: `front` is the domain that is dialled and shown in
-- the handshake in place of the URL's own host.
pub record HttpTransport : Type 0 where
  pub base_url : Bytes
  pub node_secret : Bytes
  pub label : String
  pub local_addr : Option Ip
  pub front : Option Bytes

abbrev pub keep_unless_slash : ℕ → Bytes → Bytes
keep_unless_slash c [] = if c == b'/' then [] else c ∷ []
keep_unless_slash c (x ∷ xs) = c ∷ x ∷ xs

-- `strings.TrimRight` of slashes
unfoldable pub trim_slashes : Bytes → Bytes
trim_slashes [] = []
trim_slashes (c ∷ s) = keep_unless_slash c (trim_slashes s)

unfoldable pub new_direct : Option Ip → Bytes → Bytes → HttpTransport
unfolding trim_slashes
new_direct addr base_url secret = record {
  base_url = trim_slashes base_url;
  node_secret = secret;
  label = "direct";
  local_addr = addr;
  front = none;
}

unfoldable pub new_fronted : Option Ip → Bytes → Bytes → Bytes → HttpTransport
unfolding trim_slashes
new_fronted addr front_domain real_host secret = record {
  base_url = trim_slashes (codes "https://" ++ real_host);
  node_secret = secret;
  label = "fronted";
  local_addr = addr;
  front = some front_domain;
}

pub record Request : Type 0 where
  pub url : Bytes
  pub content_type : Bytes
  pub authorization : Bytes
  pub body : Bytes

-- The request of `HTTPTransport.do`.
unfoldable pub request_of : HttpTransport → Bytes → Bytes → Request
request_of t path body = record {
  url = t.base_url ++ path;
  content_type = codes "application/json";
  authorization = codes "Bearer " ++ t.node_secret;
  body = body;
}

-- What comes of a request: no reply, or a status and a body.
pub data HttpReply : Type 0 where
  no_reply : String → HttpReply
  replied : ℕ → Bytes → HttpReply

-- The error of `HTTPTransport.do`: that of the client, a status of 300 and above, a body that is no JSON.
pub data TransportError : Type 0 where
  not_sent : String → TransportError
  bad_status : Bytes → ℕ → Bytes → TransportError
  bad_json : TransportError

pub data Sent (A : Type 0) : Type 0 where
  received : A → Sent A
  failing : TransportError → Sent A

module _ {A : Type 0} (decode : Bytes → Option A) where
  abbrev pub decoded_body : Option A → Sent A
  decoded_body none = failing bad_json
  decoded_body (some a) = received a

  unfoldable pub on_reply : Bytes → HttpReply → Sent A
  on_reply path (no_reply e) = failing (not_sent e)
  on_reply path (replied s b) =
      if leb 300 s then failing (bad_status path s (take 4096 b)) else decoded_body (decode b)

  -- `HTTPTransport.do`
  unfoldable pub send_request :
      (HttpTransport → Request → HttpReply) → HttpTransport → Bytes → Bytes → Sent A
  unfolding on_reply request_of
  send_request send t path body = on_reply path (send t (request_of t path body))

abbrev pub poll_path : Bytes
poll_path = codes "/api/v1/agent/poll"

abbrev pub results_path : Bytes
results_path = codes "/api/v1/agent/results"

-- `HTTPTransport.Poll`; `body` is the JSON of the version and the platform.
unfoldable pub poll_jobs :
    (Bytes → Option (List Job))
    → (HttpTransport → Request → HttpReply)
    → HttpTransport
    → Bytes
    → Sent (List Job)
unfolding send_request
poll_jobs decode send t body = send_request decode send t poll_path body

-- `HTTPTransport.PostResults`; `encode` gives the JSON of the results. Its reply is not read.
unfoldable pub post_results :
    (List ResultSubmission → Bytes)
    → (HttpTransport → Request → HttpReply)
    → HttpTransport
    → List ResultSubmission
    → Sent (Unit {0})
unfolding send_request
post_results encode send t [] = received tt
post_results encode send t (r ∷ rs) =
    send_request (λ b. some tt) send t results_path (encode (r ∷ rs))

-- The transports of `program.run`: the fronted one where both of its settings are given.
unfoldable pub transports_of : Config → HttpTransport × Option HttpTransport
unfolding new_direct new_fronted
transports_of c = (
  new_direct none c.direct_url c.node_secret,
  if not (is_empty c.front_domain) && not (is_empty c.front_real_host)
      then some (new_fronted none c.front_domain c.front_real_host c.node_secret)
      else none,
)
