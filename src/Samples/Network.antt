-- ===== src/Samples/Network.antt =====
-- The clients of other services at small answers.
use dmarc_report_viewer.Common.{
  ℕ, ◌+◌, ◌%◌, ◌≡◌, ◌≢◌, refl, ◌↔◌, String, Option, some, List, [], ◌∷◌, not, ◌&&◌, arith,
}
use dmarc_report_viewer.Common.Ip.{v4}
use dmarc_report_viewer.Common.Outcome.{done, panicked}
use dmarc_report_viewer.Common.Result.{ok, OnOk}
use dmarc_report_viewer.Common.Texts.{concat, join}
use dmarc_report_viewer.DnsClient.{
  DnsEnv, Socket, query_of, ipv6_query, parse_dns_name, host_from_ip, new,
}
use dmarc_report_viewer.DnsClient.Labels.{Labels, parse_dns_name_iff}
use dmarc_report_viewer.DnsClient.Reverse.{low_digits, ipv6_query_lem}
use dmarc_report_viewer.DnsClient.Answers.{IsReceived, Names, host_from_ip_iff}
use dmarc_report_viewer.Whois.{WhoisEnv, default_server, from_str, address, lookup_once, lookup}
use dmarc_report_viewer.Whois.Referrals.{IsGood, lookup_lem, arin, lookup-self_referral}
use dmarc_report_viewer.Whois.Servers.{from_str-address}
use dmarc_report_viewer.HttpClient.{ClientEnv, http_request}
use dmarc_report_viewer.HttpClient.Bodies.{IsReply, http_request-IsReply}
use dmarc_report_viewer.Imap.Connect.{ConnectEnv, create_client}
use dmarc_report_viewer.Imap.Encrypted.{IsSecured, create_client-IsSecured}
use dmarc_report_viewer.Samples.{config}

-- Two labels of one letter, and a zero byte
abbrev name_bytes : List ℕ
name_bytes = 1 ∷ 97 ∷ 1 ∷ 98 ∷ 0 ∷ []

abbrev dns_env : DnsEnv
dns_env = record {
  space_needed = λ id query. 64;
  write = λ id query. ok (id ∷ []);
  read = λ response.
      ok (record { id = 1; answers = record { ty = 12; record_data = name_bytes } ∷ [] });
  type_name = λ ty. "type";
  from_utf8 = λ bytes. some "label";
}

abbrev socket : Socket
socket = record { bind = ok tt; send_to = λ bytes. ok tt; recv = some (ok (7 ∷ [])) }

parse_dns_name_iff_example :
    (parse_dns_name dns_env name_bytes ≢ panicked)
    × ((parse_dns_name dns_env name_bytes ≡ done "label.label") ↔ (
        (labels : List String) × Labels dns_env name_bytes labels
        × ("label.label" ≡ join "." labels)))
parse_dns_name_iff_example = parse_dns_name_iff dns_env name_bytes "label.label"

host_from_ip_iff_example :
    ((host_from_ip dns_env socket (v4 127 0 0 1) new).1.next_id ≡ (new.next_id + 1) % 65536)
    × (((host_from_ip dns_env socket (v4 127 0 0 1) new).0 ≡ done (some "label.label")) ↔ (
        (response : List ℕ) × IsReceived dns_env socket new.next_id
          (query_of (v4 127 0 0 1))
          response
        × Names dns_env new.next_id response "label.label"))
host_from_ip_iff_example = host_from_ip_iff dns_env socket (v4 127 0 0 1) new "label.label"

-- The address `::1`
ipv6_query_lem_example : ipv6_query 1 ≡ concat (join "." (low_digits 32 1) ∷ ".ip6.arpa" ∷ [])
ipv6_query_lem_example = ipv6_query_lem 1

-- A server whose answers refer to itself
abbrev whois_env : WhoisEnv
whois_env = record {
  captures = λ text. some (some "whois.arin.net");
  connection = λ asked addr. record {
    connect = some (ok tt);
    write_all = λ query. some (ok tt);
    flush = some (ok tt);
    read_to_string = some (ok "ReferralServer: whois://whois.arin.net");
  };
}

abbrev referral : String
referral = "ReferralServer: whois://whois.arin.net"

lookup_lem_example : IsGood whois_env "::1" (lookup whois_env "::1")
lookup_lem_example = lookup_lem whois_env "::1"

first_answer : lookup_once whois_env "::1" [] default_server ≡ ok (arin referral)
unfolding lookup_once address default_server
first_answer = refl

later_answer :
    (asked : List String)
    → lookup_once whois_env "::1" asked
        (record { host = "whois.arin.net"; port = 43; query = "$addr\r\n" })
      ≡ ok (arin referral)
unfolding lookup_once address
later_answer asked = refl

lookup-self_referral_example : lookup whois_env "::1" ≡ (
  ok referral,
  "whois.arin.net:43" ∷ "whois.arin.net:43" ∷ "whois.arin.net:43" ∷ "whois.arin.net:43" ∷ [],
)
lookup-self_referral_example =
    lookup-self_referral whois_env "::1" referral later_answer referral first_answer refl refl

from_str-address_example :
    (from_str "a.b" ≡ ok (record { host = "a.b"; port = 43; query = "$addr\r\n" }))
    × (from_str (address (record { host = "a.b"; port = 4343; query = "" }))
        ≡ ok (record { host = "a.b"; port = 4343; query = "$addr\r\n" }))
from_str-address_example = from_str-address "a.b" "" 4343 (omega arith) (omega arith)

-- A server that answers in two frames
abbrev client_env : ClientEnv
client_env = record {
  parse_uri =
      λ url. ok (record { scheme = some "https"; host = some "localhost"; port_u16 = Option.none });
  connect = λ addr. ok tt;
  server_name = λ host. ok host;
  tls_connect = λ name addr. ok tt;
  handshake = λ stream. ok tt;
  build = λ request. ok tt;
  send_request = λ stream request. ok (record {
    status = 200;
    headers = [];
    frames = ok (some (1 ∷ [])) ∷ ok (some (2 ∷ [])) ∷ [];
  });
}

http_request-IsReply_example :
    OnOk
      (IsReply client_env "GET" "https://localhost" [] [])
      (http_request client_env "GET" "https://localhost" [] [])
http_request-IsReply_example = http_request-IsReply client_env "GET" "https://localhost" [] []

abbrev connect_env : ConnectEnv
connect_env = record {
  to_socket_addrs = λ host. ok ("127.0.0.1:993" ∷ []);
  connect_timeout = λ addr seconds. ok tt;
  set_nonblocking = ok tt;
  from_std = ok tt;
  greeting = ok (some "OK");
  starttls = ok tt;
  tls_server_roots = "root" ∷ [];
  pem_file = λ path. ok (ok "cert" ∷ []);
  parsable = λ certs. certs;
  server_name = λ host. ok host;
  connect_tls = λ roots name. ok tt;
}

create_client-IsSecured_example :
    OnOk
      (IsSecured connect_env config (config.imap_disable_tls && not config.imap_starttls))
      (create_client connect_env config)
create_client-IsSecured_example = create_client-IsSecured connect_env config
