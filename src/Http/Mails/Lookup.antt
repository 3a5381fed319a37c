-- ===== src/Http/Mails/Lookup.antt =====
-- src/http/mails.rs: a single mail and its errors, in a state that an update has left.
use dmarc_report_viewer.Common.{
  ◌%◌, String, ◌≡◌, refl, sym, ap, Option, none, some, List, [], ◌∷◌, ◌==◌, if◌then◌else◌, length,
  or_empty, string_eq, u64_mod,
}
use mathlib.Core.Option
use dmarc_report_viewer.Common.Map
use dmarc_report_viewer.Mail.{Mail}
use dmarc_report_viewer.State.{AppState, ReportParsingError}
use dmarc_report_viewer.Background.Errors.{counted_errors}
use dmarc_report_viewer.Background.Linked.{IsLinked}
use dmarc_report_viewer.Http.{ok_json}
use dmarc_report_viewer.Http.Mails.{find_mail, single_handler, errors_handler}

-- The search through the entries is the lookup.
find_mail-eq-get :
    (id : String) (mails : List (String × Mail)) → find_mail id mails ≡ Map.get id mails
unfolding find_mail Map.get
find_mail-eq-get id [] = refl
find_mail-eq-get id ((i, mail) ∷ rest) =
    ap (λ o. if i == id then some mail else o) (find_mail-eq-get id rest)

get_or-or_empty : (o : Option (List ReportParsingError)) → Option.get_or o [] ≡ or_empty o
get_or-or_empty none = refl
get_or-or_empty (some errors) = refl

-- In a linked state, as every update leaves one, a mail that is there is answered as it is, and the
-- answer of its errors lists as many errors as the mail counts, modulo the word size.
pub known_mail :
    {L : Type 0} (state : AppState L) (id : String) (m : Mail)
    → IsLinked state
    → Map.get id state.mails ≡ some m
    → (single_handler state id ≡ ok_json m)
      × ((errors : List ReportParsingError) × (errors_handler state id ≡ ok_json errors)
          × (length errors % u64_mod ≡ counted_errors m % u64_mod))
unfolding single_handler errors_handler
known_mail state id m linked h = (
  rw (find_mail-eq-get id state.mails, h, single_handler) refl,
  (
    or_empty (Map.get id state.parsing_errors),
    rw (h, errors_handler) (ap ok_json (get_or-or_empty (Map.get id state.parsing_errors))),
    sym (linked.counts id m h),
  ),
)
