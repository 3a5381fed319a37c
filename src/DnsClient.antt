-- ===== src/DnsClient.antt =====
-- src/dns_client.rs: the DNS client. Messages are those of another library (`dns-protocol`); the
-- socket is what its calls answer.
pub mod Labels
pub mod Reverse
pub mod Answers
use mathlib.Core.List.{reverse}
use Prim.Native.String.{slice}
use dmarc_report_viewer.Common.{
  ℕ, zero, suc, ◌+◌, ◌/◌, ◌%◌, String, Option, none, some, List, [], ◌∷◌, ◌++◌, ◌==◌, ltb, leb,
  if◌then◌else◌, length, nat_eq, true, false,
}
use dmarc_report_viewer.Common.Ip.{IpAddr, v4, v6}
use dmarc_report_viewer.Common.Outcome.{
  Outcome, done, failed, panicked, ◌>>=◌, attempt, demand, with_context, ensure, assert,
}
use dmarc_report_viewer.Common.Result.{Result, ok, err}
use dmarc_report_viewer.Common.Text.{to_string}
use dmarc_report_viewer.Common.Texts.{concat, join}
use dmarc_report_viewer.Imap.{split_at}

-- The first answer record: its type, and its data
pub record DnsAnswer : Type 0 where
  pub ty : ℕ
  pub record_data : List ℕ

pub record DnsMessage : Type 0 where
  pub id : ℕ
  pub answers : List DnsAnswer

-- What the client takes from other libraries: the size of a query message, its bytes, the reader of
-- messages, the names of record types in messages, and the reader of UTF-8.
pub record DnsEnv : Type 0 where
  pub space_needed : ℕ → String → ℕ
  pub write : ℕ → String → Result (List ℕ)
  pub read : List ℕ → Result DnsMessage
  pub type_name : ℕ → String
  pub from_utf8 : List ℕ → Option String

-- One socket: what its calls answer. `recv` has no answer when the time is over.
pub record Socket : Type 0 where
  pub bind : Result (Unit {0})
  pub send_to : List ℕ → Result (Unit {0})
  pub recv : Option (Result (List ℕ))

-- `ResourceType::Ptr`
abbrev pub ptr : ℕ
ptr = 12

abbrev buffer_size : ℕ
buffer_size = 1024

-- An address as a query string: the octets of an IPv4 address in reverse.
unfoldable pub ipv4_query : ℕ → ℕ → ℕ → ℕ → String
ipv4_query a b c d =
    concat (
      to_string d
      ∷ "."
      ∷ to_string c
      ∷ "."
      ∷ to_string b
      ∷ "."
      ∷ to_string a
      ∷ ".in-addr.arpa"
      ∷ [])

-- `octets`: the last `count` octets of a number, the highest first
unfoldable pub octets : ℕ → ℕ → List ℕ
octets zero n = []
octets (suc count) n = octets count (n / 256) ++ ((n % 256) ∷ [])

-- `{:x}` of a nibble
abbrev pub hex : ℕ → String
hex d = slice "0123456789abcdef" d (d + 1)

-- The loop over the octets, each pushed as its high and its low nibble
unfoldable pub nibbles : List ℕ → List String
nibbles [] = []
nibbles (octet ∷ rest) = hex (octet / 16) ∷ hex (octet % 16) ∷ nibbles rest

unfoldable pub ipv6_query : ℕ → String
unfolding octets nibbles
ipv6_query n = concat (join "." (reverse (nibbles (octets 16 n))) ∷ ".ip6.arpa" ∷ [])

unfoldable pub query_of : IpAddr → String
unfolding ipv4_query ipv6_query
query_of (v4 a b c d) = ipv4_query a b c d
query_of (v6 n) = ipv6_query n

module _ (env : DnsEnv) where
  -- The loop over the labels: `data` is what is left from the position on. Each round takes the byte of
  -- the length at least, so as many rounds as there are bytes are enough.
  unfoldable pub labels_rounds : ℕ → List ℕ → Outcome (List String)
  labels_rounds fuel [] = done []
  labels_rounds zero (len ∷ rest) = panicked
  labels_rounds (suc fuel) (len ∷ rest) = elim (len == 0) [
    | true ↦ done []
    | false ↦ elim (ltb (length rest) len) [
      | true ↦ failed "Label length out of bounds"
      | false ↦
          demand (env.from_utf8 (split_at len rest).0) "Failed to parse segment as UTF8"
          >>= λ label. labels_rounds fuel (split_at len rest).1 >>= λ more. done (label ∷ more)
    ]
  ]

  unfoldable pub parse_dns_name : List ℕ → Outcome String
  unfolding labels_rounds
  parse_dns_name bytes = labels_rounds (length bytes) bytes >>= λ labels. done (join "." labels)

  -- One query over one socket
  unfoldable pub send_message_receive_udp_data : Socket → ℕ → String → Outcome (List ℕ)
  send_message_receive_udp_data socket id query = do
    fits ← assert (leb (env.space_needed id query) buffer_size)
    bytes ← attempt (env.write id query) "Failed to serialize DNS message"
    bound ← attempt socket.bind "Failed to bind UDP socket"
    sent ← attempt (socket.send_to bytes) "Failed to send data"
    response ← demand socket.recv "Timeout while reading response"
    attempt response "Failed to read response"

  -- What is made of the answer to a query
  unfoldable pub read_host : ℕ → List ℕ → Outcome (Option String)
  unfolding parse_dns_name
  read_host id response = do
    message ← attempt (env.read response) "Failed to read DNS message"
    matched ← ensure (message.id == id) (
        concat (
          "Received response with mismatched ID: expected "
          ∷ to_string id
          ∷ ", got "
          ∷ to_string message.id
          ∷ []))
    elim message.answers [
      | [] ↦ done none
      | answer ∷ others ↦
          ensure (answer.ty == ptr) (concat ("Wrong answer type: " ∷ env.type_name answer.ty ∷ []))
          >>= λ checked.
              with_context (parse_dns_name answer.record_data) "Failed to parse DNS name"
              >>= λ name. done (some name)
    ]

-- `DnsClient`: the counter of the queries. The server and the timeout are behind the socket.
pub record DnsClient : Type 0 where
  pub next_id : ℕ

unfoldable pub new : DnsClient
new = record { next_id = 1 }

-- `fetch_add` on an `AtomicU16` wraps.
unfoldable pub host_from_ip :
    DnsEnv → Socket → IpAddr → DnsClient → Outcome (Option String) × DnsClient
unfolding query_of send_message_receive_udp_data read_host
host_from_ip env socket ip client = (
  (do
    response ←
        with_context (send_message_receive_udp_data env socket client.next_id (query_of ip))
          "Failed to send/receive DNS data"
    read_host env client.next_id response),
  record { next_id = (client.next_id + 1) % 65536 },
)
