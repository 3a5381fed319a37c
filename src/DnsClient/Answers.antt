-- ===== src/DnsClient/Answers.antt =====
-- src/dns_client.rs: where a host name comes from.
use dmarc_report_viewer.Common.{
  ℕ, ◌+◌, ◌%◌, ◌≡◌, refl, sym, ◌∙◌, String, some, List, ◌∷◌, ◌==◌, nat_eq, arith, leb, true, inl,
  inr, Bool-cases, Option-cases, List-cases, ◌↔◌,
}
use dmarc_report_viewer.Common.Ip.{IpAddr}
use dmarc_report_viewer.Common.Outcome.{done, Outcome-cases}
use dmarc_report_viewer.Common.Result.{ok, Result-cases}
use dmarc_report_viewer.Common.Texts.{join}
use dmarc_report_viewer.DnsClient.{
  DnsEnv, DnsAnswer, DnsMessage, Socket, DnsClient, query_of, ptr, parse_dns_name,
  send_message_receive_udp_data, read_host, host_from_ip,
}
use dmarc_report_viewer.DnsClient.Labels.{Labels, parse_dns_name_iff}

-- A response that came over the socket for a query
pub record IsReceived (env : DnsEnv) (socket : Socket) (id : ℕ) (query : String) (response : List ℕ)
    : Type 0 where
  pub bytes : List ℕ
  pub fits : leb (env.space_needed id query) 1024 ≡ true
  pub is_query : env.write id query ≡ ok bytes
  pub is_bound : socket.bind ≡ ok tt
  pub is_sent : socket.send_to bytes ≡ ok tt
  pub is_response : socket.recv ≡ some (ok response)

-- A response that names a host: a message of the query's number whose first answer is a pointer to it
pub record Names (env : DnsEnv) (id : ℕ) (response : List ℕ) (host : String) : Type 0 where
  pub message : DnsMessage
  pub answer : DnsAnswer
  pub others : List DnsAnswer
  pub labels : List String
  pub is_message : env.read response ≡ ok message
  pub same_id : message.id ≡ id
  pub is_first : message.answers ≡ answer ∷ others
  pub is_ptr : answer.ty ≡ ptr
  pub is_labels : Labels env answer.record_data labels
  pub is_name : host ≡ join "." labels

module _ (env : DnsEnv) (socket : Socket) (id : ℕ) (query : String) (response : List ℕ) where
  IsReceived-of_done :
      send_message_receive_udp_data env socket id query ≡ done response
      → IsReceived env socket id query response
  unfolding send_message_receive_udp_data
  IsReceived-of_done h = elim (Bool-cases (leb (env.space_needed id query) 1024)) [
    | inr e ↦ absurd (ground arith)
    | inl fits ↦ elim (Result-cases (env.write id query)) [
      | inr (message, e) ↦ absurd (ground arith)
      | inl (bytes, written) ↦ elim (Result-cases socket.bind) [
        | inr (message, e) ↦ absurd (ground arith)
        | inl (u, bound) ↦ elim (Result-cases (socket.send_to bytes)) [
          | inr (message, e) ↦ absurd (ground arith)
          | inl (v, sent) ↦ elim (Option-cases socket.recv) [
            | inl e ↦ absurd (ground arith)
            | inr (result, received) ↦ elim (Result-cases result) [
              | inr (message, e) ↦ absurd (ground arith)
              | inl (other, e) ↦ record {
                bytes = bytes;
                fits = fits;
                is_query = written;
                is_bound = bound;
                is_sent = sent;
                is_response = ground arith;
              }
            ]
          ]
        ]
      ]
    ]
  ]

  done_of_IsReceived :
      IsReceived env socket id query response
      → send_message_receive_udp_data env socket id query ≡ done response
  unfolding send_message_receive_udp_data
  done_of_IsReceived r =
      rw (r.fits, r.is_query, r.is_bound, r.is_sent, r.is_response, send_message_receive_udp_data)
        refl

module _ (env : DnsEnv) (id : ℕ) (response : List ℕ) (host : String) where
  Names-of_done : read_host env id response ≡ done (some host) → Names env id response host
  unfolding read_host
  Names-of_done h = elim (Result-cases (env.read response)) [
    | inr (e, no_message) ↦ absurd (ground arith)
    | inl (message, is_message) ↦ elim (Bool-cases (message.id == id)) [
      | inr e ↦ absurd (ground arith)
      | inl same ↦ elim (List-cases message.answers) [
        | inl e ↦ absurd (ground arith)
        | inr (answer, others, first) ↦ elim (Bool-cases (answer.ty == ptr)) [
          | inr e ↦ absurd (ground arith)
          | inl pointer ↦ elim (Outcome-cases (parse_dns_name env answer.record_data)) [
            | inr (inl (m, e)) ↦ absurd (ground arith)
            | inr (inr e) ↦ absurd (ground arith)
            | inl (name, parsed) ↦
                let (labels, l, e) = (parse_dns_name_iff env answer.record_data name).1.0 parsed in
                let named : name ≡ host = ground arith in
                record {
                  message = message;
                  answer = answer;
                  others = others;
                  labels = labels;
                  is_message = is_message;
                  same_id = (nat_eq.equals_iff message.id id).0 same;
                  is_first = first;
                  is_ptr = (nat_eq.equals_iff answer.ty ptr).0 pointer;
                  is_labels = l;
                  is_name = sym named ∙ e;
                }
          ]
        ]
      ]
    ]
  ]

  done_of_Names : Names env id response host → read_host env id response ≡ done (some host)
  unfolding read_host
  done_of_Names n =
      let name : parse_dns_name env n.answer.record_data ≡ done host =
        (parse_dns_name_iff env n.answer.record_data host).1.1 (n.labels, n.is_labels, n.is_name) in
      rw
        (
          n.is_message,
          (nat_eq.equals_iff n.message.id id).1 n.same_id,
          n.is_first,
          (nat_eq.equals_iff n.answer.ty ptr).1 n.is_ptr,
          name,
          read_host,
        )
        refl

-- The client answers with a host name exactly if a response came for the query of the address under the
-- client's number, and that response is a message of the same number whose first answer points to the
-- name. In any case the number of the next query is the next one, modulo 2^16.
pub host_from_ip_iff :
    (env : DnsEnv) (socket : Socket) (ip : IpAddr) (client : DnsClient) (host : String)
    → ((host_from_ip env socket ip client).1.next_id ≡ (client.next_id + 1) % 65536)
      × (((host_from_ip env socket ip client).0 ≡ done (some host)) ↔ (
          (response : List ℕ) × IsReceived env socket client.next_id (query_of ip) response
          × Names env client.next_id response host))
unfolding host_from_ip
host_from_ip_iff env socket ip client host = (
  refl,
  (
    λ h.
        elim (Outcome-cases
          (send_message_receive_udp_data env socket client.next_id (query_of ip))) [
            | inr (inl (m, e)) ↦ absurd (ground arith)
            | inr (inr e) ↦ absurd (ground arith)
            | inl (response, received) ↦ (
              response,
              IsReceived-of_done env socket client.next_id (query_of ip) response received,
              Names-of_done env client.next_id response host (rw (received, host_from_ip) at h),
            )
          ],
    λ (response, received, names).
        rw
          (
            done_of_IsReceived env socket client.next_id (query_of ip) response received,
            host_from_ip,
          )
          (done_of_Names env client.next_id response host names),
  ),
)
