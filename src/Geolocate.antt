-- ===== src/Geolocate.antt =====
-- src/geolocate.rs: the place of an IP address, asked of a service. The two coordinates are `f64` that
-- are only passed on; they are kept as text. An address stands for the text that is printed of it.
use dmarc_report_viewer.Common.{ℕ, String, Option, some, List, [], ◌∷◌, Bool, ◌==◌, nat_eq}
use dmarc_report_viewer.Common.Result.{Result, ok, ◌>>=◌, context, ensure}
use dmarc_report_viewer.Common.Texts.{concat}

pub record Location : Type 0 where
  pub autonomous_system : String
  pub country : String
  pub city : String
  pub country_code : String
  pub hosting : Bool
  pub isp : String
  pub lat : String
  pub lon : String
  pub org : String
  pub proxy : Bool
  pub region_name : String
  pub timezone : String

-- The request of `http_request`, with status and body of its answer, and the reader of JSON
pub record LocationEnv : Type 0 where
  pub http_request : String → String → List (String × String) → List ℕ → Result (ℕ × List ℕ)
  pub from_slice : List ℕ → Result Location

unfoldable pub location_url : String → String
unfolding concat
location_url ip = concat (
    "http://ip-api.com/json/" ∷ ip
    ∷ "?fields=country,countryCode,regionName,city,lat,lon,timezone,isp,org,as,proxy,hosting,query"
    ∷ [])

unfoldable pub from_ip : LocationEnv → String → Result (Option Location)
unfolding location_url
from_ip env ip = do
  answer ← context (env.http_request "GET" (location_url ip) [] []) "Failed to send HTTP request"
  checked ← ensure (answer.0 == 200) "Condition failed: `status == StatusCode::OK`"
  parsed ← context (env.from_slice answer.1) "Failed to parse HTTP response as JSON"
  ok (some parsed)
