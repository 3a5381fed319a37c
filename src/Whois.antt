-- ===== src/Whois.antt =====
-- src/whois.rs: the WHOIS client for IP addresses. An address stands for the text that `to_string`
-- makes of it. The expression that finds a referral is another library's (`regex`).
pub mod Referrals
pub mod Servers
use dmarc_report_viewer.Common.{
  ℕ, zero, suc, String, Option, none, some, List, [], ◌∷◌, ◌++◌, true, false, ◌==◌, string_eq,
}
use dmarc_report_viewer.Common.Result.{Result, ok, err, ◌>>=◌, context, require}
use dmarc_report_viewer.Common.Text.{decimal, to_string, parse_u16}
use dmarc_report_viewer.Common.Texts.{concat, replace, split_char}

pub record Server : Type 0 where
  pub host : String
  pub port : ℕ
  pub query : String

pub record AddrTextPair : Type 0 where
  pub server_addr : String
  pub text : String

-- One connection: what its calls answer. A call that does not answer in time has no answer.
pub record Connection : Type 0 where
  pub connect : Option (Result (Unit {0}))
  pub write_all : String → Option (Result (Unit {0}))
  pub flush : Option (Result (Unit {0}))
  pub read_to_string : Option (Result String)

-- The third group of a match is there or not; the connection to an address after those to others
pub record WhoisEnv : Type 0 where
  pub captures : String → Option (Option String)
  pub connection : List String → String → Connection

unfoldable pub default_server : Server
default_server = record { host = "whois.arin.net"; port = 43; query = "n + $addr\r\n" }

abbrev pub max_follows : ℕ
max_follows = 3

-- `Server::from_str` after the split: `split` gives one part at least.
abbrev pub of_parts : List String → Result Server
of_parts [] = err "Cannot parse address, expected host[:port]"
of_parts (host ∷ []) = ok (record { host = host; port = 43; query = "$addr\r\n" })
of_parts (host ∷ port ∷ rest) = require (parse_u16 port) "Failed to parse port" >>= λ number.
    ok (record { host = host; port = number; query = "$addr\r\n" })

unfoldable pub from_str : String → Result Server
unfolding split_char parse_u16
from_str value = of_parts (split_char b':' value)

unfoldable pub address : Server → String
unfolding concat decimal
address server = concat (server.host ∷ ":" ∷ to_string server.port ∷ [])

-- A call under a timeout
abbrev pub in_time : {A : Type 0} → Option (Result A) → String → String → Result A
in_time call late failed = require call late >>= λ answer. context answer failed

module _ (env : WhoisEnv) (ip : String) where
  -- One query to a server, after those to the servers of `asked`
  unfoldable pub lookup_once : List String → Server → Result AddrTextPair
  lookup_once asked server = do
    let server_addr = address server
    let client = env.connection asked server_addr
    connected ←
        context (in_time client.connect "TCP connect timed out" "TCP connect failed")
          "Failed to get TCP stream"
    let query = replace "$addr" ip server.query
    written ← in_time (client.write_all query) "Sending query timed out" "Failed to send query"
    flushed ← in_time client.flush "Flushing query timed out" "Failed to flush query"
    result ← in_time client.read_to_string "Reading response timed out" "Failed to read response"
    ok (record { server_addr = server_addr; text = result })

  -- The loop over referrals: the answer, and the addresses of all servers asked so far.
  unfoldable pub follow_referrals : ℕ → List String → AddrTextPair → Result String × List String
  unfolding lookup_once from_str
  follow_referrals zero asked result = (ok result.text, asked)
  follow_referrals (suc follow) asked result = elim (env.captures result.text) [
    | none ↦ (ok result.text, asked)
    | some none ↦ (ok result.text, asked)
    | some (some addr) ↦ elim (addr == result.server_addr) [
      | true ↦ (ok result.text, asked)
      | false ↦ elim (from_str addr) [
        | err e ↦ (err "Failed to parse server address", asked)
        | ok server ↦ elim (lookup_once asked server) [
          | err e ↦ (err "Secondary whois query failed", asked ++ (address server ∷ []))
          | ok next ↦ follow_referrals follow (asked ++ (address server ∷ [])) next
        ]
      ]
    ]
  ]

  unfoldable pub lookup_iterative : Server → ℕ → Result String × List String
  unfolding follow_referrals
  lookup_iterative server follow = elim (lookup_once [] server) [
    | err e ↦ (err "Initial whois query failed", address server ∷ [])
    | ok result ↦ follow_referrals follow (address server ∷ []) result
  ]

  unfoldable pub lookup : Result String × List String
  unfolding lookup_iterative
  lookup = lookup_iterative default_server max_follows
