-- ===== src/Http/Mails.antt =====
-- src/http/mails.rs: the filtered list of mails, a single mail, and its parsing errors.
pub mod Filters
pub mod Lookup
use mathlib.Core.Option
use dmarc_report_viewer.Common.{
  ℕ, String, Option, List, [], ◌∷◌, map, Bool, true, false, not, ◌&&◌, ◌||◌, ◌==◌, if◌then◌else◌,
  filter, is_empty, is_none, is_none_or, ltb, bool_eq, string_eq, nat_eq,
}
use dmarc_report_viewer.Common.Int.{ℤ, leb_ℤ}
use dmarc_report_viewer.Common.Map
use dmarc_report_viewer.Mail.{Mail}
use dmarc_report_viewer.State.{AppState, ReportParsingError}
use dmarc_report_viewer.Http.{Response, ok_json, not_found, HttpEnv}

-- `iter().find` by the key: the first entry with the key
unfoldable pub find_mail : String → List (String × Mail) → Option Mail
find_mail id [] = Option.none
find_mail id ((i, mail) ∷ rest) = if i == id then Option.some mail else find_mail id rest

unfoldable pub single_handler : {L : Type 0} → AppState L → String → Response Mail
unfolding find_mail
single_handler state id = elim (find_mail id state.mails) [
  | Option.some mail ↦ ok_json mail
  | Option.none ↦ not_found "Cannot find mail"
]

unfoldable pub errors_handler :
    {L : Type 0} → AppState L → String → Response (List ReportParsingError)
errors_handler state id =
    if is_none (Map.get id state.mails)
    then not_found "Cannot find mail"
    else ok_json (Option.get_or (Map.get id state.parsing_errors) [])

pub data Attachment : Type 0 where
  dmarc tls none : Attachment

pub record MailFilters : Type 0 where
  pub sender : Option String
  pub attachment : Option Attachment
  pub oversized : Option Bool
  pub errors : Option Bool
  pub duplicates : Option Bool
  pub begin : Option ℤ
  pub end : Option ℤ

abbrev pub has_attachment : Mail → Attachment → Bool
has_attachment m Attachment.dmarc = ltb 0 m.xml_files
has_attachment m Attachment.tls = ltb 0 m.json_files
has_attachment m Attachment.none = m.xml_files == 0 && m.json_files == 0

abbrev pub has_errors : Mail → Bool
has_errors m = ltb 0 m.xml_parsing_errors || ltb 0 m.json_parsing_errors

abbrev pub has_duplicates : Mail → Bool
has_duplicates m = not (is_empty m.dmarc_duplicates) || not (is_empty m.tls_duplicates)

module _ (env : HttpEnv) where
  unfoldable pub url_decode : MailFilters → MailFilters
  url_decode f = record f {
    sender = Option.map env.to_lowercase (Option.bind f.sender env.url_decode);
  }

  -- The filters, in the order of the source.
  unfoldable pub select_mails : MailFilters → List Mail → List Mail
  select_mails f mails =
      let by_sender =
        filter (λ m. is_none_or f.sender (λ s. env.to_lowercase m.sender == s)) mails in
      let by_size = filter (λ m. is_none_or f.oversized (bool_eq m.oversized)) by_sender in
      let by_attachment = filter (λ m. is_none_or f.attachment (has_attachment m)) by_size in
      let by_errors = filter (λ m. is_none_or f.errors (bool_eq (has_errors m))) by_attachment in
      let by_duplicates =
        filter (λ m. is_none_or f.duplicates (bool_eq (has_duplicates m))) by_errors in
      filter
        (λ m.
          is_none_or f.begin (λ begin. leb_ℤ begin m.date)
          && is_none_or f.end (λ end. leb_ℤ m.date end))
        by_duplicates

  unfoldable pub list_handler : {L : Type 0} → AppState L → MailFilters → Response (List Mail)
  unfolding url_decode select_mails
  list_handler state filters =
      ok_json (select_mails (url_decode filters) (map (λ e. e.1) state.mails))
