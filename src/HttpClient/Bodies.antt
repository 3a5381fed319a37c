-- ===== src/HttpClient/Bodies.antt =====
-- src/http_client.rs: the bodies of answers, and how requests travel.
use mathlib.Core.List.{append_assoc, append-nil}
use dmarc_report_viewer.Common.{
  ℕ, ◌≤◌, ◌≡◌, ◌⊎◌, refl, sym, inl, inr, String, Option, none, some, List, [], ◌∷◌, ◌++◌, Bool,
  true, false, ltb, length, Bool-cases, if-cases, arith, flat_map, ◌==◌, ◌||◌, string_eq,
}
use dmarc_report_viewer.Common.Result.{
  Result, ok, err, context, require, ensure, OnOk, OnOk->>=, OnOk-then, OnOk-context, OnOk-require,
  OnOk-ensure, context-OnOk,
}
use dmarc_report_viewer.Common.Text.{to_string}
use dmarc_report_viewer.Common.Texts.{concat}
use dmarc_report_viewer.HttpClient.{
  ClientEnv, Uri, Reply, Stream, plain, tls, Answer, max_body, collect_frames, create_stream,
  http_request, port_of,
}

-- The bytes of a frame
abbrev pub data_of : Result (Option (List ℕ)) → List ℕ
data_of (ok (some chunk)) = chunk
data_of (ok none) = []
data_of (err e) = []

collect_frames_lem :
    (frames : List (Result (Option (List ℕ)))) (body : List ℕ)
    → length body ≤ max_body
    → OnOk
        (λ all. (all ≡ body ++ flat_map data_of frames) × (length all ≤ max_body))
        (collect_frames frames body)
unfolding collect_frames
collect_frames_lem [] body h = (sym (append-nil body), h)
collect_frames_lem (err e ∷ rest) body h = tt
collect_frames_lem (ok none ∷ rest) body h =
    if-cases (OnOk (λ all. (all ≡ body ++ flat_map data_of rest) × (length all ≤ max_body)))
      (ltb max_body (length body)) (λ _. tt) (collect_frames_lem rest body h)
collect_frames_lem (ok (some chunk) ∷ rest) body h =
    elim (Bool-cases (ltb max_body (length (body ++ chunk)))) [
      | inl big ↦ rw (big, collect_frames) tt
      | inr small ↦
          rw (small, collect_frames, ← append_assoc body chunk (flat_map data_of rest))
            (collect_frames_lem rest (body ++ chunk) (ground arith))
    ]

-- A stream to a host and port: with TLS under the name of the host, or without.
abbrev pub IsStream : ClientEnv → String → ℕ → Bool → Stream → Type 0
IsStream env host port true stream =
    (name : String) × (env.server_name host ≡ ok name)
    × (stream ≡ tls name (concat (host ∷ ":" ∷ to_string port ∷ [])))
IsStream env host port false stream = stream ≡ plain (concat (host ∷ ":" ∷ to_string port ∷ []))

create_stream-IsStream :
    (env : ClientEnv) (host : String) (port : ℕ) (with_tls : Bool)
    → OnOk (IsStream env host port with_tls) (create_stream env host port with_tls)
unfolding create_stream
create_stream-IsStream env host port false = OnOk->>= _ (context (env.connect _) _) _ (λ u. refl)
create_stream-IsStream env host port true = OnOk->>= _ (context (env.connect _) _) _ (λ u.
    OnOk-then (λ name. env.server_name host ≡ ok name) (IsStream env host port true)
      (context (env.server_name host) _) _ (OnOk-context (env.server_name host) _)
      (λ name e.
        OnOk->>= (IsStream env host port true) (context (env.tls_connect name _) _) _
          (λ v. (name, e, refl))))

-- The port of the address, or else that of its scheme
abbrev IsPort : Option ℕ → String → ℕ → Type 0
IsPort (some p) scheme port = port ≡ p
IsPort none scheme port = ((scheme ≡ "http") × (port ≡ 80)) ⊎ ((scheme ≡ "https") × (port ≡ 443))

port_of-IsPort :
    (p : Option ℕ) (scheme : String)
    → (scheme == "http" || scheme == "https") ≡ true
    → IsPort p scheme (port_of p (scheme == "https"))
port_of-IsPort (some p) scheme h = refl
port_of-IsPort none scheme h = elim (Bool-cases (scheme == "https")) [
  | inl e ↦ inr ((string_eq.equals_iff scheme "https").0 e, rw e refl)
  | inr e ↦ inl ((string_eq.equals_iff scheme "http").0 (ground (arith, h, e)), rw e refl)
]

-- Where a reply comes from
pub record IsReply (env : ClientEnv) (method : String) (url : String)
    (headers : List (String × String)) (body : List ℕ) (reply : Reply) : Type 0 where
  pub uri : Uri
  pub scheme : String
  pub host : String
  pub port : ℕ
  pub stream : Stream
  pub answer : Answer
  pub is_uri : env.parse_uri url ≡ ok uri
  pub is_scheme : uri.scheme ≡ some scheme
  pub supported : (scheme == "http" || scheme == "https") ≡ true
  pub is_host : uri.host ≡ some host
  pub is_port : IsPort uri.port_u16 scheme port
  pub is_stream : IsStream env host port (scheme == "https") stream
  pub is_answer :
      env.send_request stream
        (record { uri = url; method = method; headers = ("host", host) ∷ headers; body = body })
      ≡ ok answer
  pub same_status : reply.status ≡ answer.status
  pub whole_body : reply.body ≡ flat_map data_of answer.frames
  pub bounded : length reply.body ≤ 1048576

reply_of : Answer → List ℕ → Result Reply
reply_of answer received =
    ok (record { status = answer.status; headers = answer.headers; body = received })

-- A reply is the answer of the server to the request, its body all bytes of the frames, at most 2^20 of
-- them. It came from the host of the address, on the port of the address or that of its scheme, over TLS
-- under the name of the host exactly if the scheme is `https`; no other scheme than `http` is served.
pub http_request-IsReply :
    (env : ClientEnv) (method url : String) (headers : List (String × String)) (body : List ℕ)
    → OnOk (IsReply env method url headers body) (http_request env method url headers body)
unfolding http_request reply_of
http_request-IsReply env method url headers body =
    let Good = IsReply env method url headers body in
    OnOk-then (λ uri. env.parse_uri url ≡ ok uri) Good (context (env.parse_uri url) _) _
      (OnOk-context _ _)
      (λ uri u.
        OnOk-then (λ s. uri.scheme ≡ some s) Good (require uri.scheme _) _ (OnOk-require _ _)
          (λ scheme s.
            OnOk-then (λ x. (scheme == "http" || scheme == "https") ≡ true) Good
              (ensure (scheme == "http" || scheme == "https")
                "Only plain HTTP or HTTPS is supported")
              _ (OnOk-ensure (scheme == "http" || scheme == "https") _)
              (λ x supported.
                OnOk-then (λ h. uri.host ≡ some h) Good (require uri.host _) _ (OnOk-require _ _)
                  (λ host h.
                    let port = port_of uri.port_u16 (scheme == "https") in
                    OnOk-then (IsStream env host port (scheme == "https")) Good
                      (context (create_stream env host port (scheme == "https")) _) _
                      (context-OnOk _ (create_stream env host port (scheme == "https")) _
                        (create_stream-IsStream env host port (scheme == "https")))
                      (λ stream t. OnOk->>= Good (context (env.handshake stream) _) _ (λ y.
                        OnOk->>= Good (context (env.build _) _) _ (λ z.
                          OnOk-then (λ a. env.send_request stream _ ≡ ok a) Good
                            (context (env.send_request stream _) _) _ (OnOk-context _ _)
                            (λ answer a.
                              OnOk-then
                                (λ all.
                                  (all ≡ flat_map data_of answer.frames) × (length all ≤ max_body))
                                Good (collect_frames answer.frames []) (reply_of answer)
                                (collect_frames_lem answer.frames [] (omega arith))
                                (λ all b. record {
                                  uri = uri;
                                  scheme = scheme;
                                  host = host;
                                  port = port;
                                  stream = stream;
                                  answer = answer;
                                  is_uri = u;
                                  is_scheme = s;
                                  supported = supported;
                                  is_host = h;
                                  is_port = port_of-IsPort uri.port_u16 scheme supported;
                                  is_stream = t;
                                  is_answer = a;
                                  same_status = refl;
                                  whole_body = b.0;
                                  bounded = b.1;
                                })))))))))
