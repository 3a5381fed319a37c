-- ===== src/Imap/Fetched.antt =====
-- src/imap.rs: what the mails of a folder look like when they come, and how they are asked for.
use dmarc_report_viewer.Common.{
  ℕ, ◌≤◌, String, ◌≡◌, refl, ap, Option, some, List, [], ◌∷◌, Bool, true, false, Option-cases, inl,
  inr, if◌then◌else◌, if-cases, ltb, ltb_iff, length, All, arith, is_empty, string_eq, nat_eq,
}
use dmarc_report_viewer.Common.Map
use dmarc_report_viewer.Common.Map.Entries.{insert-All, modify-All}
use dmarc_report_viewer.Common.Outcome.{
  attempt, demand, with_context, OnDone, OnDone-then, OnDone->>=, OnDone-context,
}
use dmarc_report_viewer.Common.Result.{Result}
use dmarc_report_viewer.Config.{Configuration}
use dmarc_report_viewer.Mail.{Mail}
use dmarc_report_viewer.Mail.Decode.{decode_subject}
use dmarc_report_viewer.Common.Texts.{as_bytes}
use dmarc_report_viewer.Hasher.{create_hash, to_le_bytes}
use dmarc_report_viewer.Imap.{
  ImapEnv, Session, Fetch, extract_metadata, metadata_loop, metadata, with_body, body_step,
  body_loop, chunk_uids, chunk_step, chunk_loop, bodies, get_mails, text_or_na, wanted,
}

-- A body that is kept under a test is the one that came, and the test has failed.
kept_body :
    (oversized : Bool) (limit : ℕ) (body kept : List ℕ)
    → ltb limit (length body) ≡ oversized
    → (if oversized then Option.none else some body) ≡ some kept
    → (length kept ≤ limit) × (length body ≡ length kept) × (oversized ≡ false)
kept_body true limit body kept t e = cc
kept_body false limit body kept t e =
    let same : length body ≡ length kept = ap length (some-inj e) in
    (ground (arith, ltb_iff limit (length body), same), same, refl)
  where
    some-inj : {x y : List ℕ} → some x ≡ some y → x ≡ y
    some-inj p = cc

module _ (env : ImapEnv) (config : Configuration) (imap_folder : String) where
  -- A mail as it comes out of its folder: under its own ID, which is the hash of UID, account and
  -- folder, with nothing counted yet, and with a body only if that is within the size limit.
  pub record IsFetchedFrom (e : String × Mail) : Type 0 where
    pub own_id : e.1.id ≡ e.0
    pub hashed_id :
        e.1.id
        ≡ create_hash env.hashes
            (to_le_bytes e.1.uid ∷ as_bytes config.imap_user ∷ as_bytes imap_folder ∷ [])
    pub own_folder : e.1.folder ≡ imap_folder
    pub no_xml_errors : e.1.xml_parsing_errors ≡ 0
    pub no_json_errors : e.1.json_parsing_errors ≡ 0
    pub within_limit :
        (body : List ℕ)
        → e.1.body ≡ some body
        → (length body ≤ config.max_mail_size) × (e.1.size ≡ length body) × (e.1.oversized ≡ false)

  extract_metadata-IsFetchedFrom :
      (fetched : Fetch)
      → OnDone (λ m. IsFetchedFrom (m.id, m)) (extract_metadata env config imap_folder fetched)
  unfolding extract_metadata
  extract_metadata-IsFetchedFrom fetched = OnDone->>= _ (demand fetched.uid _) _ (λ uid.
      OnDone->>= _ (demand fetched.envelope _) _ (λ sent.
        OnDone->>= _ (demand fetched.internal_date _) _ (λ date.
          OnDone->>= _ (decode_subject env.decode (text_or_na env.utf8_lossy sent.subject)) _
            (λ subject. record {
              own_id = refl;
              hashed_id = refl;
              own_folder = refl;
              no_xml_errors = refl;
              no_json_errors = refl;
              within_limit = λ body h. cc;
            }))))

  metadata_loop-IsFetchedFrom :
      (stream : List (Result Fetch)) (mails : List (String × Mail))
      → All IsFetchedFrom mails
      → OnDone (All IsFetchedFrom) (metadata_loop env config imap_folder stream mails)
  unfolding metadata_loop
  metadata_loop-IsFetchedFrom [] mails h = h
  metadata_loop-IsFetchedFrom (fetch_result ∷ rest) mails h =
      OnDone->>= _ (attempt fetch_result _) _ (λ fetched.
        OnDone-then _ _ (with_context (extract_metadata env config imap_folder fetched) _) _
          (OnDone-context _ (extract_metadata env config imap_folder fetched) _
            (extract_metadata-IsFetchedFrom fetched))
          (λ mail p.
            metadata_loop-IsFetchedFrom rest (Map.insert mail.id mail mails)
              (insert-All IsFetchedFrom mail.id mail mails p h)))

  metadata-IsFetchedFrom :
      (session : Session) → OnDone (All IsFetchedFrom) (metadata env config imap_folder session)
  unfolding metadata
  metadata-IsFetchedFrom session =
      if-cases (OnDone (All IsFetchedFrom)) (ltb 0 session.exists)
        (λ _.
          OnDone->>= _ (attempt (session.fetch _ _) _) _
            (λ stream. metadata_loop-IsFetchedFrom stream [] tt))
        tt

  with_body-IsFetchedFrom :
      (body : List ℕ) (id : String) (mail : Mail)
      → IsFetchedFrom (id, mail)
      → IsFetchedFrom (id, with_body env config imap_folder body mail)
  unfolding with_body
  with_body-IsFetchedFrom body id mail h = record {
    own_id = h.own_id;
    hashed_id = h.hashed_id;
    own_folder = h.own_folder;
    no_xml_errors = h.no_xml_errors;
    no_json_errors = h.no_json_errors;
    within_limit = λ kept e.
        kept_body (ltb config.max_mail_size (length body)) config.max_mail_size body kept refl e;
  }

  body_step-IsFetchedFrom :
      (uid_id_map : List (ℕ × String)) (fetched : Fetch) (mails : List (String × Mail))
      → All IsFetchedFrom mails
      → OnDone (All IsFetchedFrom) (body_step env config imap_folder uid_id_map fetched mails)
  unfolding body_step
  body_step-IsFetchedFrom uid_id_map fetched mails h = OnDone->>= _ (demand fetched.uid _) _ (λ uid.
      elim (Option-cases (Map.get uid uid_id_map)) [
        | inl e ↦ rw e h
        | inr (id, e) ↦ elim (Option-cases fetched.body) [
          | inl b ↦ rw (e, b) h
          | inr (body, b) ↦
              rw (e, b)
                (modify-All IsFetchedFrom id (with_body env config imap_folder body) mails
                  (with_body-IsFetchedFrom body) h)
        ]
      ])

  body_loop-IsFetchedFrom :
      (uid_id_map : List (ℕ × String)) (stream : List (Result Fetch)) (mails : List (String × Mail))
      → All IsFetchedFrom mails
      → OnDone (All IsFetchedFrom) (body_loop env config imap_folder uid_id_map stream mails)
  unfolding body_loop
  body_loop-IsFetchedFrom uid_id_map [] mails h = h
  body_loop-IsFetchedFrom uid_id_map (fetch_result ∷ rest) mails h =
      OnDone->>= _ (attempt fetch_result _) _ (λ fetched.
        OnDone-then _ _ (body_step env config imap_folder uid_id_map fetched mails) _
          (body_step-IsFetchedFrom uid_id_map fetched mails h)
          (body_loop-IsFetchedFrom uid_id_map rest))

  chunk_loop-IsFetchedFrom :
      (session : Session) (parts : List (List String)) (mails : List (String × Mail))
      → All IsFetchedFrom mails
      → OnDone (All IsFetchedFrom) (chunk_loop env config imap_folder session parts mails)
  unfolding chunk_loop chunk_step
  chunk_loop-IsFetchedFrom session [] mails h = h
  chunk_loop-IsFetchedFrom session (chunk ∷ rest) mails h =
      OnDone-then (All IsFetchedFrom) (All IsFetchedFrom)
        (chunk_step env config imap_folder session chunk mails) _
        (OnDone->>= _ (chunk_uids env config imap_folder mails chunk []) _ (λ uids.
          OnDone->>= _ (attempt (session.uid_fetch _ _) _) _
            (λ stream. body_loop-IsFetchedFrom uids.1 stream mails h)))
        (chunk_loop-IsFetchedFrom session rest)

  bodies-IsFetchedFrom :
      (session : Session) (mails : List (String × Mail))
      → All IsFetchedFrom mails
      → OnDone (All IsFetchedFrom) (bodies env config imap_folder session mails)
  unfolding bodies
  bodies-IsFetchedFrom session mails h =
      if-cases (OnDone (All IsFetchedFrom)) (is_empty (wanted env config imap_folder mails))
        (λ _. h)
        (if-cases (OnDone (All IsFetchedFrom)) (ltb 0 config.imap_chunk_size)
          (λ _. chunk_loop-IsFetchedFrom session _ mails h) tt)

  -- When the mails of a folder come, each is kept under its own ID, which is the hash of its UID, the
  -- account and the folder, it has no error counted, and it has a body only if the body is within the
  -- size limit; its size is then that of the body, and it is not marked oversized.
  pub get_mails-IsFetchedFrom : OnDone (All IsFetchedFrom) (get_mails env config imap_folder)
  unfolding get_mails
  get_mails-IsFetchedFrom = OnDone->>= _ (attempt env.client _) _ (λ client.
      OnDone->>= _ (attempt (env.login _ _) _) _ (λ login.
        OnDone->>= _ (attempt (env.select imap_folder) _) _ (λ session.
          OnDone-then _ _ (metadata env config imap_folder session) _
            (metadata-IsFetchedFrom session) (bodies-IsFetchedFrom session))))
