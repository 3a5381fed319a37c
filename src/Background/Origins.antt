-- ===== src/Background/Origins.antt =====
-- src/background.rs: the stored reports come from the report files, under the hashes of these.
use dmarc_report_viewer.Common.{
  ℕ, String, ◌≡◌, refl, sym, List, [], ◌∷◌, Bool-cases, Option-cases, inl, inr, string_eq, In, All,
  All_of_In,
}
use mathlib.Core.Path.{subst}
use dmarc_report_viewer.Common.BTree
use dmarc_report_viewer.Common.Map
use dmarc_report_viewer.Common.Result.{Result, ok, Result-cases, OnOk, OnOk-then, OnOk->>=, require}
use dmarc_report_viewer.Config.{Configuration}
use dmarc_report_viewer.Common.Texts.{as_bytes}
use dmarc_report_viewer.Hasher.{create_hash}
use dmarc_report_viewer.Unpack.{ReportFile}
use dmarc_report_viewer.Reports.{
  BgEnv, ReportKind, ReportLoop, accept, reject, report_step, report_loop,
}

-- The hash of a file's data and its mail's ID
abbrev pub hash_of : BgEnv → ReportFile → String
hash_of env file = create_hash env.unpack.hashes (file.bytes ∷ as_bytes file.mail_id ∷ [])

module _ {R W : Type 0} (env : BgEnv) (kind : ReportKind R W) (config : Configuration)
    (P : String × W → Type 0) where
  -- What a file would be stored as
  abbrev StoresAs : ReportFile → Type 0
  StoresAs f =
      (r : R) → kind.from_slice f.bytes ≡ ok r → P (hash_of env f, kind.with_mail_id r f.mail_id)

  step-All :
      (f : ReportFile) (s : ReportLoop W)
      → StoresAs f
      → All P s.reports
      → OnOk (λ t. All P t.reports) (report_step env kind config f s)
  unfolding report_step accept reject
  step-All f s h p = elim (Result-cases (kind.from_slice f.bytes)) [
    | inl (report, e) ↦
        let hash = hash_of env f in
        let more =
          BTree.insert-All P hash (kind.with_mail_id report f.mail_id) s.reports (h report e) p in
        rw (e, report_step)
          (elim (Bool-cases config.disable_duplicate_filter) [
            | inl off ↦ rw (off, accept) more
            | inr on ↦ elim (Option-cases (Map.get (kind.dupl_key report) s.duplication_map)) [
              | inl a ↦ rw (on, a, accept) more
              | inr (found, a) ↦ rw (on, a, accept) p
            ]
          ])
    | inr (message, e) ↦
        rw (e, report_step)
          (OnOk->>= (λ t. All P t.reports) (require (Map.get f.mail_id s.mails) _) _ (λ mail. p))
  ]

  loop-All :
      (files : List ReportFile) (s : ReportLoop W)
      → All StoresAs files
      → All P s.reports
      → OnOk (λ t. All P t.reports) (report_loop env kind config files s)
  unfolding report_loop
  loop-All [] s h p = p
  loop-All (f ∷ rest) s h p =
      OnOk-then (λ t. All P t.reports) (λ t. All P t.reports) (report_step env kind config f s)
        (report_loop env kind config rest) (step-All f s h.0 p) (λ t q. loop-All rest t h.1 q)

-- A report under the hash of a file that could be read, as it was read
abbrev pub IsFromFile :
    {R W : Type 0}
    → BgEnv
    → (List ℕ → Result R)
    → (String → R → W)
    → List ReportFile
    → String × W
    → Type 0
IsFromFile {R} env read wrap files entry =
    (f : ReportFile) × (r : R) × In f files
    × (read f.bytes ≡ ok r)
    × (entry.0 ≡ hash_of env f)
    × (entry.1 ≡ wrap f.mail_id r)

pub loop-IsFromFile :
    {R W : Type 0} (env : BgEnv) (kind : ReportKind R W) (config : Configuration)
    (files : List ReportFile) (s : ReportLoop W)
    → s.reports ≡ []
    → OnOk
        (λ t. All (IsFromFile env kind.from_slice (λ id r. kind.with_mail_id r id) files) t.reports)
        (report_loop env kind config files s)
loop-IsFromFile env kind config files s none =
    let P = IsFromFile env kind.from_slice (λ id r. kind.with_mail_id r id) files in
    loop-All env kind config P files s (All_of_In _ files (λ f i r e. (f, r, i, e, refl, refl)))
      (subst (All P) (sym none) tt)
