-- ===== src/Http/Ips/Locations.antt =====
-- src/http/ips.rs: a location that was found is kept, and asking for it changes nothing else.
use dmarc_report_viewer.Common.{◌≡◌, Option, some}
use dmarc_report_viewer.Common.Ip.{IpAddr, ip_eq}
use dmarc_report_viewer.Common.Result.{Result, ok}
use dmarc_report_viewer.CacheMap
use dmarc_report_viewer.State.{AppState}

module _ {L : Type 0} (ip : IpAddr) where
  -- What a location is answered with
  abbrev pub IsKept : Result (Option L) → AppState L → AppState L → L → Type 0
  IsKept answer before after location =
      (answer ≡ ok (some location))
      × (after ≡ record before { ip_location_cache = after.ip_location_cache })
