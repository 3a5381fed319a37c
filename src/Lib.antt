-- ===== src/Lib.antt =====
-- dmarc-report-viewer: a server that reads DMARC and SMTP TLS reports from an IMAP account and shows
-- them in a web interface.
--
-- The program. A background task (src/background.rs) updates the shared state (src/state.rs) now and
-- then: it fetches the mails of the configured folders (src/imap.rs), takes the report files out of them
-- (src/unpack.rs), parses these (src/dmarc.rs, src/tls.rs), drops duplicates, counts what could not be
-- parsed, and replaces the state in one critical section. The HTTP handlers (src/http.rs, src/http/)
-- lock the state and answer from it: a summary with counters, lists of mails and reports under filters,
-- single mails and reports, and the IP addresses of all reports. Host names and locations of IP addresses
-- are kept in a bounded cache (src/cache_map.rs, src/dns_client_cached.rs); they come from a DNS client
-- (src/dns_client.rs), a WHOIS client (src/whois.rs) and a location service (src/geolocate.rs). For each
-- new mail the task can call a web hook (src/web_hook.rs). Every request but that of the health check
-- (src/health_check.rs) passes the authentication.
--
-- The files.
--   Common/      tests, lists, results, outcomes with panics, numbers, texts, maps, counters
--   CacheMap     src/cache_map.rs: CacheMap::new, get, insert, prune
--   Dmarc, Tls   src/dmarc.rs, src/tls.rs: the data of a report, and the names of its enums
--   Mail         src/mail.rs: Mail; q_decode, decode_word, decode_subject in Mail/Decode
--   Hasher       src/hasher.rs: create_hash
--   State        src/state.rs: AppState and what it holds
--   Config       src/config.rs: Configuration, ImapBodyRequest; Configuration::log in Config/Log
--   Names        src/dmarc.rs and src/tls.rs: the round trips of these names
--   Imap         src/imap.rs: get_mails, extract_metadata, addrs_to_string; create_client and
--                create_tls_stream in Imap/Connect
--   ContentType  src/unpack.rs: merge_name_parts, and the tests on a content type
--   Unpack       src/unpack.rs: get_reports_from_zip, extract_report_files
--   Reports      src/background.rs: the two loops of bg_update over the report files
--   Background   src/background.rs: the rest of bg_update; start_bg_task in Background/Task
--   DnsClient    src/dns_client.rs: host_from_ip, ipv4_query, ipv6_query, parse_dns_name
--   DnsClientCached  src/dns_client_cached.rs: host_from_ip
--   Whois        src/whois.rs: lookup, lookup_iterative, lookup_once, Server::from_str
--   WebHook      src/web_hook.rs: mail_web_hook, get_mail_details, inject_mail_details
--   HttpClient   src/http_client.rs: http_request, create_stream
--   Geolocate    src/geolocate.rs: Location::from_ip
--   HealthCheck  src/health_check.rs: create_check_url, run_health_check
--   Http/        src/http.rs (basic_auth_middleware in Auth, the table of routes and the start of
--                the server in Routes, build and health in Build), src/http/dmarc_reports.rs,
--                tls_reports.rs, mails.rs, summary.rs, sources.rs, metrics.rs, ips.rs and
--                static_files.rs, with one file each
--   Main         src/main.rs: main; in Main/Shared the states that its tasks share
--   Samples/     small data, and each theorem at it
-- A definition has the name of the function that it models; a loop or a branch of a long function is a
-- definition of its own, and the function is composed of them as in the source.
--
-- How the state is modelled. A handler or an update is a function of the state that it locks; the mutex
-- makes each critical section one step. A BTreeMap is an association list by rising keys, a HashMap one
-- in the order of insertion; no theorem reads a meaning from that order. usize and u64 numbers are
-- natural numbers, and their sums wrap at 2^64 as in a release build. Bytes are numbers in lists. A point
-- in time is a signed number of nanoseconds. An error is its outermost message; a panic is an outcome
-- of its own where the code can reach one (Mail/Decode, Imap, DnsClient). A network is what its calls
-- answer. The tasks of a batch of addresses are a step relation over the cache they share (Http/Ips/Tasks),
-- the background task is a recursion over what its rounds meet, and the critical sections of the whole
-- program are a step relation over the shared state (Main/Shared).
--
-- Other libraries are parameters: the readers of mails, ZIP, gzip, XML, JSON, Base64, UTF-8 and character
-- sets, SHA-256, regular expressions, Unicode lower case, URL encoding and decoding, URLs, the messages of
-- DNS, the clock, the schedule, sockets, TLS, the router, and the answers of all servers. The theorems
-- hold whatever these are, and say so where they need more: bg_update-IsLinked needs fetched mails under
-- their own ID with no error counted, as the IMAP client makes them; Background/Folders and
-- Main/Always put the update and the IMAP client together.
--
-- Fuel. Four loops count down: split_rounds takes one separator off the text in each round and gets as many
-- rounds as the text has bytes; decimal divides by ten and gets one round more than the number;
-- chunk_rounds takes one chunk of at least one element and gets as many rounds as there are elements;
-- labels_rounds takes at least the byte of a length and gets as many rounds as there are bytes, and one
-- round too few would be a panic. The chain of referrals counts down because the code does. All other loops
-- run over a list or a text.
--
-- Not modelled: log lines but those of the options, the servers and their shutdown, the command line
-- reader, and the browser's code. src/acme_listener.rs belongs to no module of the program.
pub mod Common
pub mod CacheMap
pub mod Dmarc
pub mod Tls
pub mod Names
pub mod Mail
pub mod Hasher
pub mod State
pub mod Config
pub mod Imap
pub mod ContentType
pub mod Unpack
pub mod Reports
pub mod Background
pub mod DnsClient
pub mod DnsClientCached
pub mod Whois
pub mod WebHook
pub mod Geolocate
pub mod HealthCheck
pub mod HttpClient
pub mod Http
pub mod Main
mod Samples
