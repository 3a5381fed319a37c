-- ===== src/Http/Auth.antt =====
-- src/http.rs: the middleware that asks for a user name and a password.
pub mod Access
use Prim.Native.String.{len, slice}
use Prim.Native.String as S
use text.Mathlib.Text.{find?}
use dmarc_report_viewer.Common.{
  ℕ, ◌+◌, String, ◌≡◌, refl, Option, none, some, List, Bool, true, false, ◌&&◌, ◌==◌, if◌then◌else◌,
  string_eq,
}
use dmarc_report_viewer.Common.Text.{is_blank, strip_prefix}
use dmarc_report_viewer.Config.{Configuration}

-- What the middleware takes from other libraries: Base64, and the reader of UTF-8.
pub record AuthEnv : Type 0 where
  pub base64 : String → Option (List ℕ)
  pub from_utf8 : List ℕ → Option String

-- The answer of the middleware: the request goes on, or ends with 401 or 400.
pub data Verdict : Type 0 where
  run unauthorized bad_request : Verdict

-- `split_once(':')`
abbrev pub split_once : String → String → Option (String × String)
split_once sep s = elim (find? s sep) [
  | none ↦ none
  | some i ↦ some (slice s 0 i, slice s (i + len sep) (len s))
]

-- The header is absent, or its value is a text or not (the inner option).
unfoldable pub basic_auth_middleware : AuthEnv → Configuration → Option (Option String) → Verdict
basic_auth_middleware env config authorization =
    if is_blank config.http_server_password then run else elim authorization [
      | none ↦ unauthorized
      | some none ↦ bad_request
      | some (some header) ↦ elim (strip_prefix header "Basic ") [
        | none ↦ bad_request
        | some base64 ↦ elim (env.base64 base64) [
          | none ↦ bad_request
          | some decoded ↦ elim (env.from_utf8 decoded) [
            | none ↦ bad_request
            | some string ↦ elim (split_once ":" string) [
              | none ↦ bad_request
              | some (user, password) ↦
                  if user == config.http_server_user && password == config.http_server_password
                  then run
                  else unauthorized
            ]
          ]
        ]
      ]
    ]
