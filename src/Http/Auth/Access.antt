-- ===== src/Http/Auth/Access.antt =====
-- src/http.rs: who gets past the middleware.
use dmarc_report_viewer.Common.{
  ℕ, String, ◌≡◌, refl, ◌↔◌, ◌⊎◌, inl, inr, Option, none, some, List, true, false, ◌&&◌, ◌==◌,
  string_eq, Bool-cases, Option-cases, arith, &&_iff,
}
use dmarc_report_viewer.Common.Text.{is_blank, strip_prefix}
use dmarc_report_viewer.Config.{Configuration}
use dmarc_report_viewer.Http.Auth.{AuthEnv, run, split_once, basic_auth_middleware}

-- An `Authorization` header that says the configured user name and password
pub record HasCredentials (env : AuthEnv) (config : Configuration)
    (authorization : Option (Option String)) : Type 0 where
  pub header : String
  pub base64 : String
  pub decoded : List ℕ
  pub string : String
  pub is_header : authorization ≡ some (some header)
  pub is_basic : strip_prefix header "Basic " ≡ some base64
  pub is_base64 : env.base64 base64 ≡ some decoded
  pub is_text : env.from_utf8 decoded ≡ some string
  pub is_pair : split_once ":" string ≡ some (config.http_server_user, config.http_server_password)

module _ (env : AuthEnv) (config : Configuration) where
  credentials_of_run :
      (authorization : Option (Option String))
      → is_blank config.http_server_password ≡ false
      → basic_auth_middleware env config authorization ≡ run
      → HasCredentials env config authorization
  unfolding basic_auth_middleware
  credentials_of_run none set h = absurd (ground arith)
  credentials_of_run (some none) set h = absurd (ground arith)
  credentials_of_run (some (some header)) set h =
      elim (Option-cases (strip_prefix header "Basic ")) [
        | inl e ↦ absurd (ground arith)
        | inr (base64, basic) ↦ elim (Option-cases (env.base64 base64)) [
          | inl e ↦ absurd (ground arith)
          | inr (decoded, d) ↦ elim (Option-cases (env.from_utf8 decoded)) [
            | inl e ↦ absurd (ground arith)
            | inr (string, t) ↦ elim (Option-cases (split_once ":" string)) [
              | inl e ↦ absurd (ground arith)
              | inr ((user, password), p) ↦
                  let checks : user == config.http_server_user
                        && password == config.http_server_password
                      ≡ true =
                    ground arith in
                  let both = (&&_iff _ _).0 checks in
                  record {
                    header = header;
                    base64 = base64;
                    decoded = decoded;
                    string = string;
                    is_header = refl;
                    is_basic = basic;
                    is_base64 = d;
                    is_text = t;
                    is_pair =
                        rw
                          (
                            ← (string_eq.equals_iff user _).0 both.0,
                            ← (string_eq.equals_iff password _).0 both.1,
                          )
                          p;
                  }
            ]
          ]
        ]
      ]

  run_of_credentials :
      (authorization : Option (Option String))
      → HasCredentials env config authorization
      → basic_auth_middleware env config authorization ≡ run
  unfolding basic_auth_middleware
  run_of_credentials authorization c = elim (Bool-cases (is_blank config.http_server_password)) [
    | inl e ↦ rw (e, basic_auth_middleware) refl
    | inr e ↦
        rw
          (
            e,
            c.is_header,
            c.is_basic,
            c.is_base64,
            c.is_text,
            c.is_pair,
            (string_eq.equals_iff config.http_server_user config.http_server_user).1 refl,
            (string_eq.equals_iff config.http_server_password config.http_server_password).1 refl,
            basic_auth_middleware,
          )
          refl
  ]

  -- A request goes on exactly if no password is configured, or its `Authorization` header is `Basic`
  -- with the Base64 form of a text that splits at its first colon into the configured user name and
  -- the configured password.
  pub runs_iff :
      (authorization : Option (Option String))
      → (basic_auth_middleware env config authorization ≡ run)
        ↔ ((is_blank config.http_server_password ≡ true) ⊎ HasCredentials env config authorization)
  unfolding basic_auth_middleware
  runs_iff authorization = (
    λ h. elim (Bool-cases (is_blank config.http_server_password)) [
      | inl e ↦ inl e
      | inr e ↦ inr (credentials_of_run authorization e h)
    ],
    λ h. elim h [
      | inl e ↦ rw (e, basic_auth_middleware) refl
      | inr c ↦ run_of_credentials authorization c
    ],
  )
