-- ===== src/Imap/Encrypted.antt =====
-- src/imap.rs: which connections are encrypted.
use dmarc_report_viewer.Common.{
  ◌≡◌, refl, ap, ◌∙◌, String, Option, none, some, List, [], ◌∷◌, ◌++◌, map, Bool, true, false, not,
  ◌&&◌,
}
use dmarc_report_viewer.Common.Result.{
  Result, ok, err, context, require, OnOk, OnOk->>=, OnOk-then, OnOk-context, context-OnOk,
}
use dmarc_report_viewer.Config.{Configuration}
use dmarc_report_viewer.Imap.Connect.{
  first, Stream, plain, tls, ConnectEnv, read_certs, root_certs, create_tls_stream, upgrade,
  create_client,
}

-- A stream that is as the configuration says: plain only where TLS is disabled and STARTTLS is not asked
-- for, and otherwise in TLS, under the name of the configured host, with the built-in roots, and with
-- those of the configured file.
module _ (env : ConnectEnv) (config : Configuration) where
  -- The roots are the built-in ones, and after them those of the file's certificates that can be used.
  abbrev pub IsTrusted : Option String → List String → Type 0
  IsTrusted none roots = roots ≡ env.tls_server_roots
  IsTrusted (some file) roots =
      (certs : List String) × (env.pem_file file ≡ ok (map (λ c. ok c) certs))
      × (roots ≡ env.tls_server_roots ++ env.parsable certs)

  read_certs_lem :
      (found : List (Result String))
      → OnOk (λ certs. found ≡ map (λ c. ok c) certs) (read_certs found)
  unfolding read_certs
  read_certs_lem [] = refl
  read_certs_lem (ok c ∷ rest) =
      OnOk-then (λ certs. rest ≡ map (λ c. ok c) certs)
        (λ certs. ok c ∷ rest ≡ map (λ c. ok c) certs) (read_certs rest) _ (read_certs_lem rest)
        (λ more e. ap (λ l. ok c ∷ l) e)
  read_certs_lem (err e ∷ rest) = tt

  root_certs-IsTrusted : (file : Option String) → OnOk (IsTrusted file) (root_certs env config file)
  unfolding root_certs
  root_certs-IsTrusted none = refl
  root_certs-IsTrusted (some file) =
      OnOk-then (λ found. env.pem_file file ≡ ok found) (IsTrusted (some file))
        (context (env.pem_file file) _) _ (OnOk-context _ _)
        (λ found f.
          OnOk-then (λ certs. found ≡ map (λ c. ok c) certs) (IsTrusted (some file))
            (read_certs found) _ (read_certs_lem found) (λ certs c. (certs, f ∙ ap ok c, refl)))

  pub data IsSecured : Bool → Stream → Type 0 where
    is_plain : {disabled : Bool} (addr : String) → disabled ≡ true → IsSecured disabled (plain addr)
    is_tls :
        {disabled : Bool} (addr dns_name : String) (roots : List String)
        → disabled ≡ false
        → env.server_name config.imap_host ≡ ok dns_name
        → IsTrusted config.imap_tls_ca_certs roots
        → IsSecured disabled (tls addr roots dns_name)

  create_tls_stream-IsSecured :
      (addr : String) → OnOk (IsSecured false) (create_tls_stream env config addr)
  unfolding create_tls_stream
  create_tls_stream-IsSecured addr =
      OnOk-then (IsTrusted config.imap_tls_ca_certs) (IsSecured false)
        (root_certs env config config.imap_tls_ca_certs) _
        (root_certs-IsTrusted config.imap_tls_ca_certs)
        (λ roots r.
          OnOk-then (λ name. env.server_name config.imap_host ≡ ok name) (IsSecured false)
            (context (env.server_name config.imap_host) _) _ (OnOk-context _ _)
            (λ name n.
              OnOk->>= (IsSecured false) (context (env.connect_tls roots name) _) _
                (λ u. is_tls addr name roots refl n r)))

  starttls-IsSecured :
      (disable_tls : Bool) (addr : String)
      → OnOk (IsSecured false) (upgrade env config true disable_tls addr)
  unfolding upgrade
  starttls-IsSecured disable_tls addr =
      OnOk->>= (IsSecured false) (context env.greeting _) _ (λ response.
        OnOk->>= (IsSecured false) (require response _) _ (λ greeting.
          OnOk->>= (IsSecured false) (context env.starttls _) _ (λ requested.
            context-OnOk (IsSecured false) (create_tls_stream env config addr) _
              (create_tls_stream-IsSecured addr))))

  upgrade-IsSecured :
      (starttls disable_tls : Bool) (addr : String)
      → OnOk
          (IsSecured (disable_tls && not starttls))
          (upgrade env config starttls disable_tls addr)
  unfolding upgrade
  upgrade-IsSecured true true addr = starttls-IsSecured true addr
  upgrade-IsSecured true false addr = starttls-IsSecured false addr
  upgrade-IsSecured false true addr = is_plain addr refl
  upgrade-IsSecured false false addr =
      context-OnOk (IsSecured false) (create_tls_stream env config addr) _
        (create_tls_stream-IsSecured addr)

  -- A client that is created speaks plainly exactly if TLS is disabled and STARTTLS is not asked for. In
  -- all other cases it speaks over TLS with the server of the name that is configured, and trusts the
  -- built-in roots and those of the configured file.
  pub create_client-IsSecured :
      OnOk
        (IsSecured (config.imap_disable_tls && not config.imap_starttls))
        (create_client env config)
  unfolding create_client
  create_client-IsSecured =
      let Good = IsSecured (config.imap_disable_tls && not config.imap_starttls) in
      OnOk->>= Good (context (env.to_socket_addrs _) _) _ (λ addrs.
        OnOk->>= Good (require (first addrs) _) _ (λ addr.
          OnOk->>= Good (context (env.connect_timeout addr config.imap_timeout) _) _ (λ u.
            OnOk->>= Good (context env.set_nonblocking _) _ (λ v.
              OnOk->>= Good (context env.from_std _) _
                (λ w. upgrade-IsSecured config.imap_starttls config.imap_disable_tls addr)))))
