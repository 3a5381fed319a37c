-- ===== src/Background/Kept.antt =====
-- src/background.rs: what the loops over the report files keep once they have it.
use dmarc_report_viewer.Common.{
  String, ◌≡◌, refl, sym, ap, ◌∙◌, some, List, [], ◌∷◌, ◌++◌, false, Bool-cases, Option-cases, inl,
  inr, ◌==◌, is_none, or_empty, string_eq, arith, In, here, there,
}
use mathlib.Core.Path.{subst}
use dmarc_report_viewer.Common.BTree
use dmarc_report_viewer.Common.Map
use dmarc_report_viewer.Common.Map.{get-insert, get-modify, is_none-get-modify}
use dmarc_report_viewer.Mail.{Mail}
use dmarc_report_viewer.State.{ReportParsingError}
use dmarc_report_viewer.Background.Mails.{IsKnown}

-- A report is stored under a hash, an error is kept for a mail, and a mail lists a duplicate.
abbrev pub IsStored : {W : Type 0} → String → List (String × W) → Type 0
IsStored hash reports = is_none (Map.get hash reports) ≡ false

abbrev pub HasError : String → ReportParsingError → List (String × List ReportParsingError) → Type 0
HasError id error errors = In error (or_empty (Map.get id errors))

abbrev pub HasDuplicate : (Mail → List String) → String → String → List (String × Mail) → Type 0
HasDuplicate dups id hash mails = (m : Mail) × (Map.get id mails ≡ some m) × In hash (dups m)

In-append-left {ℓ} : {A : Type ℓ} (a : A) (xs ys : List A) → In a xs → In a (xs ++ ys)
In-append-left a [] ys i = elim i [ ]
In-append-left a (x ∷ xs) ys (here e) = here e
In-append-left a (x ∷ xs) ys (there i) = there (In-append-left a xs ys i)

pub In-append-last {ℓ} : {A : Type ℓ} (a : A) (xs : List A) → In a (xs ++ a ∷ [])
In-append-last a [] = here refl
In-append-last a (x ∷ xs) = there (In-append-last a xs)

pub In-push {ℓ} : {A : Type ℓ} (a b : A) (xs : List A) → In a xs → In a (xs ++ b ∷ [])
In-push a b xs i = In-append-left a xs (b ∷ []) i

pub IsStored-insert :
    {W : Type 0} (k : String) (w : W) (reports : List (String × W)) (hash : String)
    → IsStored hash reports
    → IsStored hash (BTree.insert k w reports)
IsStored-insert k w reports hash h = ground (arith, BTree.get-insert k hash w reports)

pub IsStored-insert_self :
    {W : Type 0} (k : String) (w : W) (reports : List (String × W))
    → IsStored k (BTree.insert k w reports)
IsStored-insert_self k w reports =
    ground (arith, BTree.get-insert k k w reports, string_eq.equals_iff k k)

pub HasError-insert :
    (k id : String) (new error : ReportParsingError)
    (errors : List (String × List ReportParsingError))
    → HasError id error errors
    → HasError id error (Map.insert k (or_empty (Map.get k errors) ++ new ∷ []) errors)
HasError-insert k id new error errors i = elim (Bool-cases (k == id)) [
  | inl e ↦
      let same : k ≡ id = (string_eq.equals_iff k id).0 e in
      rw (get-insert k id _ errors, e)
        (In-push error new _ (subst (λ j. HasError j error errors) (sym same) i))
  | inr e ↦ rw (get-insert k id _ errors, e) i
]

pub HasError-insert_self :
    (k : String) (new : ReportParsingError) (errors : List (String × List ReportParsingError))
    → HasError k new (Map.insert k (or_empty (Map.get k errors) ++ new ∷ []) errors)
HasError-insert_self k new errors =
    rw (get-insert k k _ errors, (string_eq.equals_iff k k).1 refl)
      (In-append-last new (or_empty (Map.get k errors)))

module _ (dups : Mail → List String) where
  pub HasDuplicate-modify :
      (k id hash : String) (f : Mail → Mail) (mails : List (String × Mail))
      → ((m : Mail) → In hash (dups m) → In hash (dups (f m)))
      → HasDuplicate dups id hash mails
      → HasDuplicate dups id hash (Map.modify k f mails)
  HasDuplicate-modify k id hash f mails keeps (m, e, i) = elim (Bool-cases (k == id)) [
    | inl same ↦ (f m, get-modify k id f mails ∙ rw (same, e) refl, keeps m i)
    | inr differ ↦ (m, get-modify k id f mails ∙ rw (differ, e) refl, i)
  ]

  pub HasDuplicate-modify_self :
      (k hash : String) (f : Mail → Mail) (mails : List (String × Mail))
      → ((m : Mail) → In hash (dups (f m)))
      → IsKnown mails k
      → HasDuplicate dups k hash (Map.modify k f mails)
  HasDuplicate-modify_self k hash f mails new known = elim (Option-cases (Map.get k mails)) [
    | inl e ↦ absurd (ground (arith, ap is_none e, known))
    | inr (m, e) ↦
        (f m, get-modify k k f mails ∙ rw ((string_eq.equals_iff k k).1 refl, e) refl, new m)
  ]
