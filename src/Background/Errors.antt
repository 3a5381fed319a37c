-- ===== src/Background/Errors.antt =====
-- src/background.rs: the errors that a mail counts, and those that are kept for it.
use dmarc_report_viewer.Common.{
  ℕ, ◌+◌, String, ◌≡◌, refl, List, [], ◌∷◌, ◌++◌, Bool-cases, inl, inr, length, length-append,
  or_empty, ◌==◌, if◌then◌else◌, string_eq,
}
use dmarc_report_viewer.Common.Map
use dmarc_report_viewer.Common.Map.{get-insert, get-modify, is_none-get-modify}
use dmarc_report_viewer.Mail.{Mail}
use dmarc_report_viewer.State.{ReportParsingError}

-- The errors that the counters of a mail say
abbrev pub counted_errors : Mail → ℕ
counted_errors m = m.xml_parsing_errors + m.json_parsing_errors

-- The errors that are kept for a mail
abbrev pub kept_errors : String → List (String × List ReportParsingError) → ℕ
kept_errors id errors = length (or_empty (Map.get id errors))

pub kept_errors-insert :
    (k id : String) (error : ReportParsingError) (errors : List (String × List ReportParsingError))
    → kept_errors id (Map.insert k (or_empty (Map.get k errors) ++ error ∷ []) errors)
      ≡ (if k == id then kept_errors id errors + 1 else kept_errors id errors)
kept_errors-insert k id error errors = elim (Bool-cases (k == id)) [
  | inl e ↦
      let same : k ≡ id = (string_eq.equals_iff k id).0 e in
      rw (get-insert, e) (rw (← same) (length-append (or_empty (Map.get k errors)) (error ∷ [])))
  | inr e ↦ rw (get-insert, e) refl
]
