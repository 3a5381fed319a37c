-- ===== src/Imap/Connect.antt =====
-- src/imap.rs: the connection to the IMAP server. Sockets and TLS are other libraries'; a client is known
-- by the stream it speaks over. A time limit is that of the configuration.
use dmarc_report_viewer.Common.{
  ℕ, String, Option, none, some, List, [], ◌∷◌, ◌++◌, Bool, true, false,
}
use dmarc_report_viewer.Common.Result.{Result, ok, ◌>>=◌, context, require}
use dmarc_report_viewer.Common.Text.{to_string}
use dmarc_report_viewer.Common.Texts.{concat}
use dmarc_report_viewer.Config.{Configuration}

-- A stream to an address: plain, or in TLS with the roots that are trusted and the name of the server
pub data Stream : Type 0 where
  plain : String → Stream
  tls : String → List String → String → Stream

-- `greeting` is the first response over the plain connection, if there is one; `tls_server_roots` are the
-- built-in certificates, and `parsable` those of a file that the store takes.
pub record ConnectEnv : Type 0 where
  pub to_socket_addrs : String → Result (List String)
  pub connect_timeout : String → ℕ → Result (Unit {0})
  pub set_nonblocking : Result (Unit {0})
  pub from_std : Result (Unit {0})
  pub greeting : Result (Option String)
  pub starttls : Result (Unit {0})
  pub tls_server_roots : List String
  pub pem_file : String → Result (List (Result String))
  pub parsable : List String → List String
  pub server_name : String → Result String
  pub connect_tls : List String → String → Result (Unit {0})

-- The first address that is found
abbrev pub first : List String → Option String
first [] = none
first (addr ∷ rest) = some addr

-- The loop over the certificates of a file
unfoldable pub read_certs : List (Result String) → Result (List String)
read_certs [] = ok []
read_certs (res ∷ rest) = do
  cert ← context res "Failed to parse certificate"
  more ← read_certs rest
  ok (cert ∷ more)

module _ (env : ConnectEnv) (config : Configuration) where
  unfoldable pub root_certs : Option String → Result (List String)
  unfolding read_certs
  root_certs none = ok env.tls_server_roots
  root_certs (some ca_certs) = do
    found ← context (env.pem_file ca_certs) "Failed to parse custom CA certificate file"
    custom_certs ← read_certs found
    ok (env.tls_server_roots ++ env.parsable custom_certs)

  unfoldable pub create_tls_stream : String → Result Stream
  unfolding root_certs
  create_tls_stream addr = do
    roots ← root_certs config.imap_tls_ca_certs
    dns_name ← context (env.server_name config.imap_host) "Failed to get DNS name from host"
    connected ← context (env.connect_tls roots dns_name) "Failed to create TLS stream"
    ok (tls addr roots dns_name)

  -- The three ways to go on from a TCP stream
  unfoldable pub upgrade : Bool → Bool → String → Result Stream
  unfolding create_tls_stream
  upgrade true imap_disable_tls addr = do
    response ← context env.greeting "Failed to read greeting"
    greeting ← require response "Failed parse greeting response"
    requested ← context env.starttls "Failed to run STARTTLS command"
    context (create_tls_stream addr) "Failed to upgrade to TLS stream"
  upgrade false true addr = ok (plain addr)
  upgrade false false addr = context (create_tls_stream addr) "Failed to create TLS stream"

  unfoldable pub create_client : Result Stream
  unfolding upgrade
  create_client = do
    addrs ←
        context
          (env.to_socket_addrs (concat (config.imap_host ∷ ":" ∷ to_string config.imap_port ∷ [])))
          "Failed to convert host name and port to socket address"
    addr ← require (first addrs) "Unable get first resolved address"
    connected ←
        context (env.connect_timeout addr config.imap_timeout) "Failed to connect to IMAP server"
    nonblocking ← context env.set_nonblocking "Failed to set TCP stream to non-blocking"
    tcp_stream ← context env.from_std "Failed to create TCP stream to IMAP server"
    upgrade config.imap_starttls config.imap_disable_tls addr
