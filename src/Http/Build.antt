-- ===== src/Http/Build.antt =====
-- src/http.rs: the two handlers that only say something of the program itself.
use dmarc_report_viewer.Common.{String, Option, none, some, List, [], ◌∷◌}
use dmarc_report_viewer.Http.{Response, ok_json}

abbrev or_na : Option String → String
or_na none = "n/a"
or_na (some value) = value

-- The version, and the commit that the build environment names, if it does
unfoldable pub build : String → Option String → Option String → Response (List (String × String))
build version github_sha github_ref_name =
    ok_json
      (("version", version) ∷ ("hash", or_na github_sha) ∷ ("ref", or_na github_ref_name) ∷ [])

-- The headers of an empty answer
unfoldable pub health : List (String × String)
health = ("cache-control", "no-cache") ∷ []
