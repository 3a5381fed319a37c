-- ===== src/Http/Mails/Filters.antt =====
-- src/http/mails.rs: which mails the list shows.
use dmarc_report_viewer.Common.{
  String, ◌<◌, ◌≡◌, ◌≢◌, ◌↔◌, ◌⊎◌, refl, some, List, [], ◌∷◌, map, Bool, true, false, not, In,
  In-filter_decides, In-filter_then, In-map_iff, is_empty, is_none_or_decides, bool_eq, bool_eq_iff,
  and_iff, or_iff, string_eq, arith,
}
use dmarc_report_viewer.Common.Int.{ℤ, ◌≤ℤ◌, leb_ℤ_iff}
use dmarc_report_viewer.Mail.{Mail}
use dmarc_report_viewer.State.{AppState}
use dmarc_report_viewer.Http.{HttpEnv, ok_json}
use dmarc_report_viewer.Http.Mails.{
  Attachment, MailFilters, has_attachment, has_errors, has_duplicates, url_decode, select_mails,
  list_handler,
}

-- What a mail with the queried kind of attachment is.
abbrev pub Carries : Mail → Attachment → Type 0
Carries m Attachment.dmarc = 0 < m.xml_files
Carries m Attachment.tls = 0 < m.json_files
Carries m Attachment.none = (m.xml_files ≡ 0) × (m.json_files ≡ 0)

abbrev pub HasErrors : Mail → Type 0
HasErrors m = (0 < m.xml_parsing_errors) ⊎ (0 < m.json_parsing_errors)

abbrev pub HasDuplicates : Mail → Type 0
HasDuplicates m = (m.dmarc_duplicates ≢ []) ⊎ (m.tls_duplicates ≢ [])

-- `b` says whether `P` holds.
abbrev pub Says : Bool → Type 0 → Type 0
Says true P = P
Says false P = ¬ P

pub record MailMatches (to_lowercase : String → String) (f : MailFilters) (m : Mail) : Type 0 where
  pub by_sender : (s : String) → f.sender ≡ some s → to_lowercase m.sender ≡ s
  pub by_size : (b : Bool) → f.oversized ≡ some b → m.oversized ≡ b
  pub by_attachment : (a : Attachment) → f.attachment ≡ some a → Carries m a
  pub by_errors : (b : Bool) → f.errors ≡ some b → Says b (HasErrors m)
  pub by_duplicates : (b : Bool) → f.duplicates ≡ some b → Says b (HasDuplicates m)
  pub by_begin : (t : ℤ) → f.begin ≡ some t → t ≤ℤ m.date
  pub by_end : (t : ℤ) → f.end ≡ some t → m.date ≤ℤ t

has_attachment_iff : (m : Mail) (a : Attachment) → (has_attachment m a ≡ true) ↔ Carries m a
has_attachment_iff m Attachment.dmarc = ground arith
has_attachment_iff m Attachment.tls = ground arith
has_attachment_iff m Attachment.none = ground arith

says_iff : {P : Type 0} (t : Bool) → (t ≡ true) ↔ P → (b : Bool) → (bool_eq t b ≡ true) ↔ Says b P
says_iff true d true = d
says_iff true d false = (λ h. cc, λ h. absurd (h (d.0 refl)))
says_iff false d true = d
says_iff false d false = (λ _ p. cc (d.1 p), λ _. refl)

has_errors_iff : (m : Mail) → (has_errors m ≡ true) ↔ HasErrors m
has_errors_iff m = (λ h. ground arith, λ h. ground arith)

not-empty_iff : (l : List String) → (not (is_empty l) ≡ true) ↔ (l ≢ [])
not-empty_iff [] = (λ h. cc, λ h. absurd (h refl))
not-empty_iff (x ∷ xs) = (λ h e. cc, λ h. refl)

has_duplicates_iff : (m : Mail) → (has_duplicates m ≡ true) ↔ HasDuplicates m
has_duplicates_iff m =
    or_iff _ _ (not-empty_iff m.dmarc_duplicates) (not-empty_iff m.tls_duplicates)

In-select_mails_iff :
    (env : HttpEnv) (f : MailFilters) (m : Mail) (xs : List Mail)
    → In m (select_mails env f xs) ↔ (In m xs × MailMatches env.to_lowercase f m)
unfolding select_mails
In-select_mails_iff env f m xs =
    let by_sender =
      In-filter_decides _ _
        (λ m.
          is_none_or_decides _ f.sender _ (λ s. string_eq.equals_iff (env.to_lowercase m.sender) s))
        m xs in
    let by_size =
      In-filter_then _ _ (λ m. is_none_or_decides _ f.oversized _ (bool_eq_iff m.oversized)) m _ xs
        by_sender in
    let by_attachment =
      In-filter_then _ _ (λ m. is_none_or_decides _ f.attachment _ (has_attachment_iff m)) m _ xs
        by_size in
    let by_errors =
      In-filter_then _ _
        (λ m. is_none_or_decides _ f.errors _ (says_iff (has_errors m) (has_errors_iff m))) m _ xs
        by_attachment in
    let by_duplicates =
      In-filter_then _ _
        (λ m.
          is_none_or_decides _ f.duplicates _ (says_iff (has_duplicates m) (has_duplicates_iff m)))
        m _ xs by_errors in
    let by_date =
      In-filter_then _ _
        (λ m.
          and_iff _ _ (is_none_or_decides _ f.begin _ (λ t. leb_ℤ_iff t m.date))
            (is_none_or_decides _ f.end _ (λ t. leb_ℤ_iff m.date t)))
        m _ xs by_duplicates in
    (
      λ i.
          let (j, h) = by_date.0 i in
          (
            j,
            record {
              by_sender = h.0.0.0.0.0;
              by_size = h.0.0.0.0.1;
              by_attachment = h.0.0.0.1;
              by_errors = h.0.0.1;
              by_duplicates = h.0.1;
              by_begin = h.1.0;
              by_end = h.1.1;
            },
          ),
      λ (j, h). by_date.1 (
        j,
        (
          ((((h.by_sender, h.by_size), h.by_attachment), h.by_errors), h.by_duplicates),
          (h.by_begin, h.by_end),
        ),
      ),
    )

-- The mails that the list shows: those of the state that meet every decoded filter, and no others.
pub shown_mails : {L : Type 0} → HttpEnv → AppState L → MailFilters → List Mail
shown_mails env state filters =
    select_mails env (url_decode env filters) (map (λ e. e.1) state.mails)

-- The list is answered with status 200 and exactly the stored mails that meet every decoded
-- filter: sender, size flag, kind of attachment, parsing errors, duplicates and both dates.
pub In-mail_list_handler_iff :
    (env : HttpEnv) {L : Type 0} (state : AppState L) (filters : MailFilters)
    → (list_handler env state filters ≡ ok_json (shown_mails env state filters))
      × ((m : Mail)
          → In m (shown_mails env state filters) ↔ (
              ((e : String × Mail) × In e state.mails × (m ≡ e.1))
              × MailMatches env.to_lowercase (url_decode env filters) m))
unfolding list_handler shown_mails
In-mail_list_handler_iff env state filters = (
  refl,
  λ m.
      let chosen =
        In-select_mails_iff env (url_decode env filters) m
          (map (λ (e : String × Mail). e.1) state.mails) in
      let stored = In-map_iff (λ (e : String × Mail). e.1) m state.mails in
      (λ i. let (j, h) = chosen.0 i in (stored.0 j, h), λ (j, h). chosen.1 (stored.1 j, h)),
)
