-- ===== src/Http/Ips.antt =====
-- src/http/ips.rs: what is known of IP addresses. A handler takes the answers of the DNS client, of the
-- location service and of the WHOIS client; a JSON value is shown before it is printed.
pub mod Progress
pub mod Tasks
pub mod Batch
pub mod Locations
use dmarc_report_viewer.Common.{
  ℕ, ◌≤◌, String, Option, none, some, List, [], ◌∷◌, Bool, true, false, if◌then◌else◌, ltb, length,
}
use dmarc_report_viewer.Common.Ip.{IpAddr, ip_eq}
use dmarc_report_viewer.Common.Result.{Result, ok, err}
use dmarc_report_viewer.CacheMap
use dmarc_report_viewer.Http.{Response, json, text, ok_json, not_found}
use dmarc_report_viewer.State.{AppState}

abbrev pub answer_text {ℓ} : {T : Type ℓ} → ℕ → String → Response T
answer_text status message = record {
  status = status;
  content_type = "text/plain";
  body = text message;
}

-- The handler of one address, with the answer of the DNS client
unfoldable pub dns_single_handler : Result (Option String) → Response (Unit {0})
dns_single_handler (err e) = answer_text 500 "DNS lookup failed"
dns_single_handler (ok (some host_name)) = answer_text 200 host_name
dns_single_handler (ok none) = not_found "n/a"

-- `result.ok().flatten()`
abbrev pub flat : Result (Option String) → Option String
flat (ok response) = response
flat (err e) = none

-- The loop that joins the tasks: a task that was not joined ends it.
unfoldable pub join_tasks : List (Option (Result (Option String))) → Option (List (Option String))
join_tasks [] = some []
join_tasks (none ∷ handles) = none
join_tasks (some result ∷ handles) = elim (join_tasks handles) [
  | none ↦ none
  | some results ↦ some (flat result ∷ results)
]

abbrev pub max_ip_count : ℕ
max_ip_count = 100

-- `handles` are the tasks' answers in the order of the addresses; `prints` is the writer of JSON.
unfoldable pub dns_batch_handler :
    (List (Option String) → Bool)
    → List IpAddr
    → List (Option (Result (Option String)))
    → Response (List (Option String))
unfolding join_tasks
dns_batch_handler prints ips handles =
    if ltb max_ip_count (length ips)
    then answer_text 400 "Requests can only contain up to 100 IPs"
    else elim (join_tasks handles) [
      | none ↦ answer_text 500 "Failed to join DNS query task"
      | some results ↦
          if prints results then ok_json results else answer_text 500 "Unable to serialize result"
    ]

module _ {L : Type 0} where
  -- The answer for an address that is not in the cache: a place that is found is kept.
  unfoldable pub locate : IpAddr → Result (Option L) → AppState L → Response L × AppState L
  unfolding CacheMap.insert
  locate ip (err e) app = (answer_text 500 "Failed to locate IP", app)
  locate ip (ok none) app = (not_found "No info found", app)
  locate ip (ok (some location)) app = (
    ok_json location,
    record app { ip_location_cache = CacheMap.insert app.ip_location_cache ip location },
  )

  -- `located` is what the service would answer, `meanwhile` what else happens to the state until then.
  unfoldable pub to_location_handler :
      IpAddr → Result (Option L) → (AppState L → AppState L) → AppState L → Response L × AppState L
  unfolding locate CacheMap.get
  to_location_handler ip located meanwhile app = elim (CacheMap.get app.ip_location_cache ip) [
    | some location ↦ (ok_json location, app)
    | none ↦ locate ip located (meanwhile app)
  ]

unfoldable pub to_whois_handler : Result String → Response (Unit {0})
to_whois_handler (err e) = not_found "Failed to look up IP"
to_whois_handler (ok whois) = answer_text 200 whois
