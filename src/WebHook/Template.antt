-- ===== src/WebHook/Template.antt =====
-- src/web_hook.rs: templates with placeholders for the details of a mail.
use Prim.Native.String as S
use dmarc_report_viewer.Common.{
  ◌≡◌, refl, sym, ap, ◌∙◌, String, Option, none, some, List, [], ◌∷◌, map, Bool, if◌then◌else◌,
  Bool-cases, if-cases, inl, inr, All, ◌==◌, string_eq, arith,
}
use mathlib.Core.List.{Perm}
use mathlib.Core.Option
use dmarc_report_viewer.Common.Map
use dmarc_report_viewer.Common.Map.Keys.{IsDistinct}
use dmarc_report_viewer.Common.Map.Order.{get-map, get-Perm}
use dmarc_report_viewer.Common.Separators.{Without}
use dmarc_report_viewer.Common.Texts.{replace_after, replace}
use dmarc_report_viewer.WebHook.{inject_mail_details}
use dmarc_report_viewer.WebHook.Replace.{
  bracketed, placeholder-bracketed, IsKey, replace-literal, replace-other, replace-same,
}

-- A template: literal text without brackets that open, and placeholders
pub data Piece : Type 0 where
  literal : String → Piece
  hole : String → Piece

pub render : List Piece → String
render [] = ""
render (literal s ∷ pieces) = S.◌++◌ s (render pieces)
render (hole key ∷ pieces) = bracketed key (render pieces)

abbrev pub IsPlain : Piece → Type 0
IsPlain (literal s) = Without b'[' s
IsPlain (hole key) = IsKey key

-- A piece with one detail put in, and with all
abbrev pub fill : String → String → Piece → Piece
fill key value (literal s) = literal s
fill key value (hole j) = if key == j then literal value else hole j

abbrev filled : String → Option String → Piece
filled key none = hole key
filled key (some value) = literal value

abbrev pub fill_all : List (String × String) → Piece → Piece
fill_all details (literal s) = literal s
fill_all details (hole key) = filled key (Map.get key details)

replace-render :
    (key value : String) (pieces : List Piece)
    → IsKey key
    → All IsPlain pieces
    → replace (bracketed key "") value (render pieces) ≡ render (map (fill key value) pieces)
unfolding render replace_after
replace-render key value [] k h = refl
replace-render key value (literal s ∷ pieces) k h =
    replace-literal (S.◌++◌ key "]") value s (render pieces) h.0
    ∙ ap (S.◌++◌ s) (replace-render key value pieces k h.1)
replace-render key value (hole j ∷ pieces) k h = elim (Bool-cases (key == j)) [
  | inl e ↦
      rw (e, ← (string_eq.equals_iff key j).0 e, render)
        (replace-same key value (render pieces)
          ∙ ap (S.◌++◌ value) (replace-render key value pieces k h.1))
  | inr e ↦
      rw (e, render)
        (replace-other key j value (render pieces) (ground (arith, string_eq.equals_iff key j)) k
            h.0
          ∙ ap (bracketed j) (replace-render key value pieces k h.1))
]

fill-IsPlain :
    (key value : String) (pieces : List Piece)
    → Without b'[' value
    → All IsPlain pieces
    → All IsPlain (map (fill key value) pieces)
fill-IsPlain key value [] v h = tt
fill-IsPlain key value (literal s ∷ pieces) v h = (h.0, fill-IsPlain key value pieces v h.1)
fill-IsPlain key value (hole j ∷ pieces) v h =
    (if-cases IsPlain (key == j) (λ e. v) h.0, fill-IsPlain key value pieces v h.1)

fill_all-fill_one :
    (key value : String) (details : List (String × String)) (piece : Piece)
    → fill_all details (fill key value piece) ≡ fill_all ((key, value) ∷ details) piece
unfolding Map.get
fill_all-fill_one key value details (literal s) = refl
fill_all-fill_one key value details (hole j) = ground arith

fill_all-fill :
    (key value : String) (details : List (String × String)) (pieces : List Piece)
    → map (fill_all details) (map (fill key value) pieces)
      ≡ map (fill_all ((key, value) ∷ details)) pieces
fill_all-fill key value details [] = refl
fill_all-fill key value details (piece ∷ pieces) =
    ap (λ p. p ∷ map (fill_all details) (map (fill key value) pieces))
      (fill_all-fill_one key value details piece)
    ∙ ap (λ l. fill_all ((key, value) ∷ details) piece ∷ l) (fill_all-fill key value details pieces)

fill_all-nil : (pieces : List Piece) → map (fill_all []) pieces ≡ pieces
unfolding Map.get
fill_all-nil [] = refl
fill_all-nil (literal s ∷ pieces) = ap (λ l. literal s ∷ l) (fill_all-nil pieces)
fill_all-nil (hole j ∷ pieces) = ap (λ l. hole j ∷ l) (fill_all-nil pieces)

-- What a value is put in as
abbrev pub shown : (String → String) → Bool → String → String
shown url_encode url_encode_value value = if url_encode_value then url_encode value else value

module _ (url_encode : String → String) (url_encode_value : Bool) where
  abbrev pub IsSafe : String × String → Type 0
  IsSafe (key, value) = IsKey key × Without b'[' (shown url_encode url_encode_value value)

  -- Every placeholder of a known detail is replaced, and nothing else.
  inject-render_in_order :
      (details : List (String × String)) (pieces : List Piece)
      → All IsSafe details
      → All IsPlain pieces
      → inject_mail_details url_encode details (render pieces) url_encode_value
        ≡ render (
            map (fill_all (map (λ e. (e.0, shown url_encode url_encode_value e.1)) details)) pieces)
  unfolding inject_mail_details
  inject-render_in_order [] pieces safe plain = ap render (sym (fill_all-nil pieces))
  inject-render_in_order ((key, value) ∷ details) pieces safe plain =
      let value' = shown url_encode url_encode_value value in
      ap
        (λ p.
          inject_mail_details url_encode details (replace p value' (render pieces))
            url_encode_value)
        (placeholder-bracketed key)
      ∙ ap (λ t. inject_mail_details url_encode details t url_encode_value)
          (replace-render key value' pieces safe.0.0 plain)
      ∙ inject-render_in_order details (map (fill key value') pieces) safe.1
          (fill-IsPlain key value' pieces safe.0.1 plain)
      ∙ ap render (fill_all-fill key value' _ pieces)

  abbrev pub as_shown : List (String × String) → List (String × String)
  as_shown details = map (λ e. (e.0, shown url_encode url_encode_value e.1)) details

  fill_all-Perm :
      (details order : List (String × String)) (pieces : List Piece)
      → Perm order details
      → IsDistinct order
      → map (fill_all (as_shown order)) pieces ≡ map (fill_all (as_shown details)) pieces
  fill_all-Perm details order [] p d = refl
  fill_all-Perm details order (literal s ∷ pieces) p d =
      ap (λ l. literal s ∷ l) (fill_all-Perm details order pieces p d)
  fill_all-Perm details order (hole key ∷ pieces) p d =
      let same : Map.get key (as_shown order) ≡ Map.get key (as_shown details) =
        get-map (shown url_encode url_encode_value) key order
        ∙ ap (Option.map (shown url_encode url_encode_value)) (get-Perm key p d)
        ∙ sym (get-map (shown url_encode url_encode_value) key details) in
      ap (λ o. filled key o ∷ map (fill_all (as_shown order)) pieces) same
      ∙ ap (λ l. fill_all (as_shown details) (hole key) ∷ l)
          (fill_all-Perm details order pieces p d)

  -- In a template of literal text and placeholders, every placeholder of a known detail is replaced by its
  -- value, and all else stays as it is, in whatever order the map of the details hands them out. This
  -- needs keys without brackets, each of them once, and literal text and values (encoded, where they
  -- are) without opening brackets.
  pub inject-render :
      (details order : List (String × String)) (pieces : List Piece)
      → Perm order details
      → IsDistinct order
      → All IsSafe order
      → All IsPlain pieces
      → inject_mail_details url_encode order (render pieces) url_encode_value
        ≡ render (map (fill_all (as_shown details)) pieces)
  inject-render details order pieces p distinct safe plain =
      inject-render_in_order order pieces safe plain
      ∙ ap render (fill_all-Perm details order pieces p distinct)
