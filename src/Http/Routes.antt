-- ===== src/Http/Routes.antt =====
-- src/http.rs: the table of routes, and the start of the server. Finding the route of a request is the
-- part of another library (`axum`), as are the servers and the certificates.
pub mod Protected
use dmarc_report_viewer.Common.{
  ℕ, String, Option, none, some, List, [], ◌∷◌, ◌++◌, map, Bool, true, false, if◌then◌else◌,
}
use dmarc_report_viewer.Common.Result.{Result, ok, err, ◌>>=◌, context, require}
use dmarc_report_viewer.Common.Text.{to_string}
use dmarc_report_viewer.Common.Texts.{concat}
use dmarc_report_viewer.Config.{Configuration}
use dmarc_report_viewer.Http.Auth.{
  AuthEnv, Verdict, run, unauthorized, bad_request, basic_auth_middleware,
}

-- The handlers that requests are routed to
pub data Handler : Type 0 where
  summary : Handler
  mails_list : Handler
  mails_single : Handler
  mails_errors : Handler
  dmarc_reports_list : Handler
  dmarc_reports_single : Handler
  dmarc_reports_json : Handler
  dmarc_reports_xml : Handler
  tls_reports_list : Handler
  tls_reports_single : Handler
  tls_reports_json : Handler
  sources : Handler
  ips_dns_single : Handler
  ips_dns_batch : Handler
  ips_to_location : Handler
  ips_to_whois : Handler
  build : Handler
  metrics : Handler
  static_file : Handler
  health : Handler

pub record Route : Type 0 where
  pub method : String
  pub path : String
  pub handler : Handler
  pub protected : Bool

abbrev under_get : String → Handler → Route
under_get path handler = record {
  method = "GET";
  path = path;
  handler = handler;
  protected = false;
}

abbrev under_post : String → Handler → Route
under_post path handler = record {
  method = "POST";
  path = path;
  handler = handler;
  protected = false;
}

-- `route_layer`: the middleware stands before the routes so far.
abbrev pub route_layer : List Route → List Route
route_layer routes = map (λ (r : Route). record r { protected = true }) routes

abbrev pub guarded_routes : List Route
guarded_routes =
    (under_get "/summary" summary
      ∷ under_get "/mails" mails_list
      ∷ under_get "/mails/{id}" mails_single
      ∷ under_get "/mails/{id}/errors" mails_errors
      ∷ under_get "/dmarc-reports" dmarc_reports_list
      ∷ under_get "/dmarc-reports/{id}" dmarc_reports_single
      ∷ under_get "/dmarc-reports/{id}/json" dmarc_reports_json
      ∷ under_get "/dmarc-reports/{id}/xml" dmarc_reports_xml
      ∷ under_get "/tls-reports" tls_reports_list
      ∷ under_get "/tls-reports/{id}" tls_reports_single
      ∷ under_get "/tls-reports/{id}/json" tls_reports_json
      ∷ under_get "/sources" sources
      ∷ under_get "/ips/{ip}/dns" ips_dns_single
      ∷ under_post "/ips/dns/batch" ips_dns_batch
      ∷ under_get "/ips/{ip}/location" ips_to_location
      ∷ under_get "/ips/{ip}/whois" ips_to_whois
      ∷ under_get "/build" build
      ∷ under_get "/metrics" metrics
      ∷ under_get "/" static_file
      ∷ under_get "/{*filepath}" static_file
      ∷ [])

abbrev pub health_route : Route
health_route = under_get "/health" health

abbrev pub routes : List Route
routes = route_layer guarded_routes ++ health_route ∷ []

-- What becomes of a request
pub data Served : Type 0 where
  handled : Handler → Served
  refused : Verdict → Served
  unmatched : Served

-- A handler behind the middleware or not
unfoldable pub pass : Bool → Verdict → Handler → Served
pass false verdict handler = handled handler
pass true run handler = handled handler
pass true unauthorized handler = refused unauthorized
pass true bad_request handler = refused bad_request

-- `find` is the route that the router finds for a method and a path, if there is one.
unfoldable pub serve :
    (List Route → String → String → Option Route)
    → AuthEnv
    → Configuration
    → String
    → String
    → Option (Option String)
    → Served
unfolding pass
serve find env config method path authorization = elim (find routes method path) [
  | none ↦ unmatched
  | some route ↦ pass route.protected (basic_auth_middleware env config authorization) route.handler
]

-- What the certificates are ordered with
pub record Acme : Type 0 where
  pub domain : String
  pub contact : String
  pub cache : String

unfoldable pub acme_of : Configuration → Result Acme
acme_of config = do
  acme_domain ←
      require config.https_auto_cert_domain
        "HTTPS automatic certificate domain is missing in configuration"
  mail ←
      require config.https_auto_cert_mail
        "HTTPS automatic certificate mail is missing in configuration"
  acme_cache ←
      require config.https_auto_cert_cache
        "HTTPS automatic certificate cache directory is missing in configuration"
  ok (record { domain = acme_domain; contact = concat ("mailto:" ∷ mail ∷ []); cache = acme_cache })

-- The servers: `serve_http` and `serve_https` run until the shutdown.
unfoldable pub run_http_server :
    (String → Result String)
    → (String → Result (Unit {0}))
    → (String → Acme → Result (Unit {0}))
    → Configuration
    → Result (Unit {0})
unfolding acme_of
run_http_server parse_addr serve_http serve_https config = do
  addr ←
      context
        (parse_addr
          (concat (config.http_server_binding ∷ ":" ∷ to_string config.http_server_port ∷ [])))
        "Failed to parse binding address"
  if config.https_auto_cert
      then context (acme_of config >>= serve_https addr) "Failed to start HTTPS server"
      else context (serve_http addr) "Failed to start HTTP server"
