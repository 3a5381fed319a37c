-- ===== src/Dmarc/Names.antt =====
-- src/dmarc.rs: the names by which the result types and the disposition are written and read, as
-- the `serde` attributes and the hand-written reader of `DispositionType` give them.
use dmarc_report_viewer.Common.{
  String, ◌≡◌, refl, Option, none, some, Bool, ◌==◌, if◌then◌else◌, List, [], ◌∷◌, any, string_eq,
}
use dmarc_report_viewer.Common.Result.{Result, ok, err}
use dmarc_report_viewer.Dmarc.{DispositionType, DmarcResultType, DkimResultType, SpfResultType}

-- The names of a variant, tried one after the other.
named : String → List String → Bool
unfolding any
named s names = any (λ n. s == n) names

module _ (to_lowercase : String → String) where
  -- `Deserialize for DispositionType`
  unfoldable pub deserialize_disposition : String → Result DispositionType
  deserialize_disposition s =
      let l = to_lowercase s in
      if l == "quarantine"
      then ok DispositionType.quarantine
      else if l == "reject"
      then ok DispositionType.reject
      else if l == "none"
      then ok DispositionType.none
      else if l == ""
      then ok DispositionType.none
      else if l == "pass"
      then ok DispositionType.none
      else err "not a known disposition type"

-- `rename_all = "lowercase"` on `DispositionType`
unfoldable pub serialize_disposition : DispositionType → String
serialize_disposition DispositionType.none = "none"
serialize_disposition DispositionType.quarantine = "quarantine"
serialize_disposition DispositionType.reject = "reject"

unfoldable pub serialize_dmarc_result : DmarcResultType → String
serialize_dmarc_result DmarcResultType.pass = "pass"
serialize_dmarc_result DmarcResultType.fail = "fail"

unfoldable pub deserialize_dmarc_result : String → Option DmarcResultType
unfolding named
deserialize_dmarc_result s =
    if named s ("pass" ∷ "Pass" ∷ "PASS" ∷ [])
    then some DmarcResultType.pass
    else if named s ("fail" ∷ "Fail" ∷ "FAIL" ∷ [])
    then some DmarcResultType.fail
    else none

unfoldable pub serialize_dkim_result : DkimResultType → String
serialize_dkim_result DkimResultType.none = "none"
serialize_dkim_result DkimResultType.pass = "pass"
serialize_dkim_result DkimResultType.fail = "fail"
serialize_dkim_result DkimResultType.policy = "policy"
serialize_dkim_result DkimResultType.neutral = "neutral"
serialize_dkim_result DkimResultType.temporary_error = "temperror"
serialize_dkim_result DkimResultType.permanent_error = "permerror"

unfoldable pub deserialize_dkim_result : String → Option DkimResultType
unfolding named
deserialize_dkim_result s =
    if named s ("none" ∷ "None" ∷ "NONE" ∷ [])
    then some DkimResultType.none
    else if named s ("pass" ∷ "Pass" ∷ "PASS" ∷ [])
    then some DkimResultType.pass
    else if named s ("fail" ∷ "Fail" ∷ "FAIL" ∷ [])
    then some DkimResultType.fail
    else if named s ("policy" ∷ "Policy" ∷ "POLICY" ∷ [])
    then some DkimResultType.policy
    else if named s ("neutral" ∷ "Neutral" ∷ "NEUTRAL" ∷ [])
    then some DkimResultType.neutral
    else if named s ("temperror" ∷ "TempError" ∷ "TEMPERROR" ∷ [])
    then some DkimResultType.temporary_error
    else if named s ("permerror" ∷ "PermError" ∷ "PERMERROR" ∷ [])
    then some DkimResultType.permanent_error
    else none

unfoldable pub serialize_spf_result : SpfResultType → String
serialize_spf_result SpfResultType.none = "none"
serialize_spf_result SpfResultType.neutral = "neutral"
serialize_spf_result SpfResultType.pass = "pass"
serialize_spf_result SpfResultType.fail = "fail"
serialize_spf_result SpfResultType.soft_fail = "softfail"
serialize_spf_result SpfResultType.temporary_error = "temperror"
serialize_spf_result SpfResultType.permanent_error = "permerror"

unfoldable pub deserialize_spf_result : String → Option SpfResultType
unfolding named
deserialize_spf_result s =
    if named s ("none" ∷ "None" ∷ "NONE" ∷ [])
    then some SpfResultType.none
    else if named s ("neutral" ∷ "Neutral" ∷ "NEUTRAL" ∷ [])
    then some SpfResultType.neutral
    else if named s ("pass" ∷ "Pass" ∷ "PASS" ∷ [])
    then some SpfResultType.pass
    else if named s ("fail" ∷ "hardfail" ∷ "HardFail" ∷ "HARDFAIL" ∷ "Fail" ∷ "FAIL" ∷ [])
    then some SpfResultType.fail
    else if named s ("softfail" ∷ "SoftFail" ∷ "SOFTFAIL" ∷ [])
    then some SpfResultType.soft_fail
    else if named s
        ("temperror" ∷ "TempError" ∷ "TEMPERROR" ∷ "unknown" ∷ "Unknown" ∷ "UNKNOWN" ∷ [])
    then some SpfResultType.temporary_error
    else if named s ("permerror" ∷ "PermError" ∷ "PERMERROR" ∷ "error" ∷ "Error" ∷ "ERROR" ∷ [])
    then some SpfResultType.permanent_error
    else none

-- Every result type is read back from the name by which it is written.
pub deserialize-serialize_dmarc_result :
    (r : DmarcResultType) → deserialize_dmarc_result (serialize_dmarc_result r) ≡ some r
unfolding deserialize_dmarc_result serialize_dmarc_result
deserialize-serialize_dmarc_result DmarcResultType.pass = refl
deserialize-serialize_dmarc_result _ = refl

-- Every DKIM result is read back from the name that it is written by.
pub deserialize-serialize_dkim_result :
    (r : DkimResultType) → deserialize_dkim_result (serialize_dkim_result r) ≡ some r
unfolding deserialize_dkim_result serialize_dkim_result
deserialize-serialize_dkim_result DkimResultType.none = refl
deserialize-serialize_dkim_result _ = refl

-- Every SPF result is read back from the name that it is written by.
pub deserialize-serialize_spf_result :
    (r : SpfResultType) → deserialize_spf_result (serialize_spf_result r) ≡ some r
unfolding deserialize_spf_result serialize_spf_result
deserialize-serialize_spf_result SpfResultType.none = refl
deserialize-serialize_spf_result _ = refl

-- Every disposition is read back from the name that it is written by, if that name is in lower case as
-- the reader converts it.
pub deserialize-serialize_disposition :
    (to_lowercase : String → String)
    → ((d : DispositionType) → to_lowercase (serialize_disposition d) ≡ serialize_disposition d)
    → (d : DispositionType) → deserialize_disposition to_lowercase (serialize_disposition d) ≡ ok d
unfolding deserialize_disposition serialize_disposition
deserialize-serialize_disposition to_lowercase h DispositionType.none =
    rw (h DispositionType.none, deserialize_disposition) refl
deserialize-serialize_disposition to_lowercase h DispositionType.quarantine =
    rw (h DispositionType.quarantine, deserialize_disposition) refl
deserialize-serialize_disposition to_lowercase h DispositionType.reject =
    rw (h DispositionType.reject, deserialize_disposition) refl
