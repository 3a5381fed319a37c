-- ===== src/HttpClient.antt =====
-- src/http_client.rs: one HTTP request. Addresses, TLS and the protocol are other libraries'
-- (`hyper`, `rustls`); a connection is what its calls answer.
pub mod Bodies
use dmarc_report_viewer.Common.{
  ℕ, String, Option, none, some, List, [], ◌∷◌, ◌++◌, Bool, true, false, ◌||◌, if◌then◌else◌, ◌==◌,
  string_eq, ltb, length,
}
use dmarc_report_viewer.Common.Result.{Result, ok, err, ◌>>=◌, context, require, ensure}
use dmarc_report_viewer.Common.Text.{to_string}
use dmarc_report_viewer.Common.Texts.{concat}

pub record Uri : Type 0 where
  pub scheme : Option String
  pub host : Option String
  pub port_u16 : Option ℕ

pub data Stream : Type 0 where
  plain : String → Stream
  tls : String → String → Stream

-- A request as it is built: the headers start with `Host`.
pub record Request : Type 0 where
  pub uri : String
  pub method : String
  pub headers : List (String × String)
  pub body : List ℕ

-- An answer: its frames come one by one, each with data or not.
pub record Answer : Type 0 where
  pub status : ℕ
  pub headers : List (String × String)
  pub frames : List (Result (Option (List ℕ)))

pub record Reply : Type 0 where
  pub status : ℕ
  pub headers : List (String × String)
  pub body : List ℕ

pub record ClientEnv : Type 0 where
  pub parse_uri : String → Result Uri
  pub connect : String → Result (Unit {0})
  pub server_name : String → Result String
  pub tls_connect : String → String → Result (Unit {0})
  pub handshake : Stream → Result (Unit {0})
  pub build : Request → Result (Unit {0})
  pub send_request : Stream → Request → Result Answer

abbrev pub max_body : ℕ
max_body = 1048576

-- The loop over the frames of the answer
unfoldable pub collect_frames : List (Result (Option (List ℕ))) → List ℕ → Result (List ℕ)
collect_frames [] body = ok body
collect_frames (err e ∷ rest) body = err "Failed to receive next HTTP response chunk"
collect_frames (ok none ∷ rest) body =
    let more = collect_frames rest body in
    if ltb max_body (length body) then err "HTTP response too big" else more
collect_frames (ok (some chunk) ∷ rest) body =
    let more = collect_frames rest (body ++ chunk) in
    if ltb max_body (length (body ++ chunk)) then err "HTTP response too big" else more

abbrev pub port_of : Option ℕ → Bool → ℕ
port_of (some port) https = port
port_of none true = 443
port_of none false = 80

module _ (env : ClientEnv) where
  -- The connection as it is, or in TLS
  unfoldable pub secure : Bool → String → String → Result Stream
  secure false host address = ok (plain address)
  secure true host address = do
    dns_name ← context (env.server_name host) "Failed to get DNS name from host"
    secured ← context (env.tls_connect dns_name address) "Failed to create TLS stream"
    ok (tls dns_name address)

  unfoldable pub create_stream : String → ℕ → Bool → Result Stream
  unfolding secure
  create_stream host port with_tls = do
    let address = concat (host ∷ ":" ∷ to_string port ∷ [])
    connected ←
        context (env.connect address) (concat ("Failed to connect TCP stream at " ∷ address ∷ []))
    secure with_tls host address

  unfoldable pub http_request : String → String → List (String × String) → List ℕ → Result Reply
  unfolding create_stream collect_frames
  http_request method url headers body = do
    uri ← context (env.parse_uri url) "Failed to parse URL"
    scheme ← require uri.scheme "URL has no scheme"
    supported ←
        ensure (scheme == "http" || scheme == "https") "Only plain HTTP or HTTPS is supported"
    host ← require uri.host "URL has no host"
    stream ←
        context (create_stream host (port_of uri.port_u16 (scheme == "https")) (scheme == "https"))
          "Failed to create stream"
    shaken ← context (env.handshake stream) "Failed to create HTTP handshake"
    let req : Request = record {
      uri = url;
      method = method;
      headers = ("host", host) ∷ headers;
      body = body;
    }
    built ← context (env.build req) "Failed to create HTTP request"
    res ← context (env.send_request stream req) "Failed to send HTTP request"
    received ← collect_frames res.frames []
    ok (record { status = res.status; headers = res.headers; body = received })
