-- ===== src/Imap.antt =====
-- src/imap.rs: the mails of a folder. The connection, the session and its commands are another
-- library's (`async-imap`); a session is what its commands answer.
pub mod Fetched
pub mod Chunks
pub mod Connect
pub mod Encrypted
use Prim.Native.String.{◌++◌ as str_append}
use Prim.Native.String as S
use dmarc_report_viewer.Common.{
  ℕ, zero, suc, ◌+◌, String, Option, none, some, List, [], ◌∷◌, map, Bool, true, false, not, ltb,
  leb, if◌then◌else◌, length, filter, nat_eq, string_eq, is_empty,
}
use mathlib.Core.Option
use dmarc_report_viewer.Common.Int.{ℤ}
use dmarc_report_viewer.Common.Map
use dmarc_report_viewer.Common.Outcome.{
  Outcome, done, failed, panicked, ◌>>=◌, attempt, demand, with_context, expect,
}
use dmarc_report_viewer.Common.Result.{Result, ok, err}
use dmarc_report_viewer.Common.Text.{to_string}
use dmarc_report_viewer.Common.Texts.{as_bytes, concat, join}
use dmarc_report_viewer.Config.{Configuration, to_request_string}
use dmarc_report_viewer.Hasher.{HashEnv, create_hash, to_le_bytes}
use dmarc_report_viewer.Mail.{Mail}
use dmarc_report_viewer.Mail.Decode.{DecodeEnv, decode_subject}

pub record Address : Type 0 where
  pub mailbox : Option (List ℕ)
  pub host : Option (List ℕ)

pub record Envelope : Type 0 where
  pub subject : Option (List ℕ)
  pub sender : Option (List Address)
  pub to : Option (List Address)

-- One answer to a fetch command
pub record Fetch : Type 0 where
  pub uid : Option ℕ
  pub size : Option ℕ
  pub envelope : Option Envelope
  pub internal_date : Option ℤ
  pub body : Option (List ℕ)

-- An open session with a selected folder: the number of mails, and the answers to the two commands
pub record Session : Type 0 where
  pub exists : ℕ
  pub fetch : String → String → Result (List (Result Fetch))
  pub uid_fetch : String → String → Result (List (Result Fetch))

pub record ImapEnv : Type 0 where
  pub hashes : HashEnv
  pub decode : DecodeEnv
  pub utf8_lossy : List ℕ → String
  -- `create_client`, `login` and `select`
  pub client : Result (Unit {0})
  pub login : String → String → Result (Unit {0})
  pub select : String → Result Session

abbrev pub text_or_na : (List ℕ → String) → Option (List ℕ) → String
text_or_na utf8_lossy none = "n/a"
text_or_na utf8_lossy (some bytes) = utf8_lossy bytes

unfoldable pub addrs_to_string : (List ℕ → String) → Option (List Address) → String
addrs_to_string utf8_lossy none = "n/a"
addrs_to_string utf8_lossy (some addrs) = join "; " (
    map (λ a. concat (text_or_na utf8_lossy a.mailbox ∷ "@" ∷ text_or_na utf8_lossy a.host ∷ []))
      addrs)

abbrev or_zero : Option ℕ → ℕ
or_zero none = 0
or_zero (some n) = n

-- The first `n` elements and the others
abbrev pub split_at : {A : Type 0} → ℕ → List A → List A × List A
split_at zero xs = ([], xs)
split_at (suc n) [] = ([], [])
split_at (suc n) (x ∷ xs) = let more = split_at n xs in (x ∷ more.0, more.1)

-- Each round takes one chunk, so as many rounds as there are elements are enough.
unfoldable pub chunk_rounds : {A : Type 0} → ℕ → ℕ → List A → List (List A)
chunk_rounds zero size xs = []
chunk_rounds (suc fuel) size [] = []
chunk_rounds (suc fuel) size (x ∷ xs) =
    let parts = split_at size (x ∷ xs) in parts.0 ∷ chunk_rounds fuel size parts.1

abbrev pub chunks : {A : Type 0} → ℕ → List A → List (List A)
chunks size xs = chunk_rounds (length xs) size xs

module _ (env : ImapEnv) (config : Configuration) (imap_folder : String) where
  -- The mail's ID is the hash of UID, account and folder.
  abbrev pub mail_id : ℕ → String
  mail_id uid =
      create_hash env.hashes
        (to_le_bytes uid ∷ as_bytes config.imap_user ∷ as_bytes imap_folder ∷ [])

  unfoldable pub extract_metadata : Fetch → Outcome Mail
  unfolding decode_subject addrs_to_string
  extract_metadata mail = do
    uid ← demand mail.uid "Mail server did not provide UID"
    sent ← demand mail.envelope "Mail server did not provide envelope"
    date ← demand mail.internal_date "Mail server did not provide date"
    subject ← decode_subject env.decode (text_or_na env.utf8_lossy sent.subject)
    done (record {
      id = mail_id uid;
      account = config.imap_user;
      folder = imap_folder;
      uid = uid;
      size = or_zero mail.size;
      oversized = ltb config.max_mail_size (or_zero mail.size);
      date = date;
      subject = subject;
      sender = addrs_to_string env.utf8_lossy sent.sender;
      to = addrs_to_string env.utf8_lossy sent.to;
      body = Option.none;
      xml_files = 0;
      json_files = 0;
      xml_parsing_errors = 0;
      json_parsing_errors = 0;
      dmarc_duplicates = [];
      tls_duplicates = [];
    })

  -- The loop over the stream of metadata
  unfoldable pub metadata_loop :
      List (Result Fetch) → List (String × Mail) → Outcome (List (String × Mail))
  unfolding extract_metadata
  metadata_loop [] mails = done mails
  metadata_loop (fetch_result ∷ rest) mails = do
    fetched ← attempt fetch_result "Failed to get next mail header from IMAP fetch response"
    mail ← with_context (extract_metadata fetched) "Unable to extract mail metadata"
    metadata_loop rest (Map.insert mail.id mail mails)

  unfoldable pub metadata : Session → Outcome (List (String × Mail))
  unfolding metadata_loop
  metadata session =
      if ltb 0 session.exists
      then (do
        stream ←
            attempt
              (session.fetch (concat ("1:" ∷ to_string session.exists ∷ []))
                "(RFC822.SIZE UID ENVELOPE INTERNALDATE)")
              "Failed to fetch message stream from IMAP inbox"
        metadata_loop stream [])
      else done []

  -- A mail with the body that came for it. A mail that turns out oversized keeps none.
  unfoldable pub with_body : List ℕ → Mail → Mail
  with_body body mail =
      let oversized = ltb config.max_mail_size (length body) in
      record mail {
        body = if oversized then Option.none else some body;
        size = length body;
        oversized = oversized;
      }

  -- One answer with a body; an answer with an unknown UID or without a body is skipped.
  unfoldable pub body_step :
      List (ℕ × String) → Fetch → List (String × Mail) → Outcome (List (String × Mail))
  unfolding with_body
  body_step uid_id_map fetched mails = do
    uid ← demand fetched.uid "Failed to get UID from IMAP fetch result"
    elim (Map.get uid uid_id_map) [
      | none ↦ done mails
      | some id ↦ elim fetched.body [
        | none ↦ done mails
        | some body ↦ done (Map.modify id (with_body body) mails)
      ]
    ]

  unfoldable pub body_loop :
      List (ℕ × String)
      → List (Result Fetch)
      → List (String × Mail)
      → Outcome (List (String × Mail))
  unfolding body_step
  body_loop uid_id_map [] mails = done mails
  body_loop uid_id_map (fetch_result ∷ rest) mails = do
    fetched ← attempt fetch_result "Failed to get next mail header from IMAP fetch response"
    next ← body_step uid_id_map fetched mails
    body_loop uid_id_map rest next

  -- The UIDs of a chunk of mails, and the way back to the IDs
  unfoldable pub chunk_uids :
      List (String × Mail) → List String → List (ℕ × String) → Outcome (List ℕ × List (ℕ × String))
  chunk_uids mails [] uid_id_map = done ([], uid_id_map)
  chunk_uids mails (id ∷ rest) uid_id_map = do
    me ← expect (Map.get id mails)
    more ← chunk_uids mails rest (Map.insert me.uid me.id uid_id_map)
    done (me.uid ∷ more.0, more.1)

  abbrev pub fetch_query : String
  fetch_query = concat (
      "("
      ∷ to_request_string config.imap_body_request
      ∷ " RFC822.SIZE UID ENVELOPE INTERNALDATE)"
      ∷ [])

  unfoldable pub chunk_step :
      Session → List String → List (String × Mail) → Outcome (List (String × Mail))
  unfolding chunk_uids body_loop
  chunk_step session chunk mails = do
    uids ← chunk_uids mails chunk []
    stream ←
        attempt (session.uid_fetch (join "," (map to_string uids.0)) fetch_query)
          "Failed to fetch message stream from IMAP inbox"
    body_loop uids.1 stream mails

  unfoldable pub chunk_loop :
      Session → List (List String) → List (String × Mail) → Outcome (List (String × Mail))
  unfolding chunk_step
  chunk_loop session [] mails = done mails
  chunk_loop session (chunk ∷ rest) mails =
      chunk_step session chunk mails >>= chunk_loop session rest

  -- The IDs of the mails that are not oversized
  abbrev pub wanted : List (String × Mail) → List String
  wanted mails = map (λ e. e.1.id) (filter (λ e. not e.1.oversized) mails)

  unfoldable pub bodies : Session → List (String × Mail) → Outcome (List (String × Mail))
  unfolding chunk_loop
  bodies session mails =
      if is_empty (wanted mails)
      then done mails
      else if ltb 0 config.imap_chunk_size
      then chunk_loop session (chunks config.imap_chunk_size (wanted mails)) mails
      else failed "IMAP Chunk size must be non-zero"

  unfoldable pub get_mails : Outcome (List (String × Mail))
  unfolding metadata bodies
  get_mails = do
    client ← attempt env.client "Failed to create IMAP client"
    login ←
        attempt (env.login config.imap_user config.imap_password)
          "Failed to log in and create IMAP session"
    session ←
        attempt (env.select imap_folder)
          (concat ("Failed to select " ∷ imap_folder ∷ " folder" ∷ []))
    mails ← metadata session
    bodies session mails
