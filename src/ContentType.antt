-- ===== src/ContentType.antt =====
-- src/unpack.rs: the content type of a part, and what it says about the part.
use dmarc_report_viewer.Common.{
  ℕ, ◌+◌, String, none, some, List, [], ◌∷◌, Bool, ◌&&◌, ◌||◌, ltb, if◌then◌else◌, string_eq,
}
use Prim.Native.String.{len}
use dmarc_report_viewer.Common.Text.{
  is_blank, contains, ends_with, strip_prefix, drop_first, drop_last, trim, to_string,
}
use text.Mathlib.Text.{starts_with}
use dmarc_report_viewer.Common.Texts.{concat, split}
use dmarc_report_viewer.State.{file_type_eq}

-- One round of the loop over the segments of a content type
pub record NameParts : Type 0 where
  pub out_buffer : String
  pub name_buffer : String
  pub next : ℕ

abbrev pub without_semicolon : String → String
without_semicolon s = if ends_with s ";" then drop_last s else s

abbrev pub without_quotes : String → String
without_quotes s =
    if ltb 2 (len s) && starts_with s "\"" && ends_with s "\"" then drop_last (drop_first s) else s

unfoldable pub merge_segment : NameParts → String → NameParts
merge_segment b segment =
    let next_prefix = concat ("name*" ∷ to_string b.next ∷ "=" ∷ []) in
    elim (strip_prefix (trim segment) next_prefix) [
      | some candidate ↦ record b {
        next = b.next + 1;
        name_buffer = concat (b.name_buffer ∷ without_quotes (without_semicolon candidate) ∷ []);
      }
      | none ↦
          if is_blank b.out_buffer
          then record b { out_buffer = concat (b.out_buffer ∷ segment ∷ []) }
          else record b { out_buffer = concat (b.out_buffer ∷ "; " ∷ segment ∷ []) }
    ]

unfoldable pub merge_segments : NameParts → List String → NameParts
unfolding merge_segment
merge_segments b [] = b
merge_segments b (segment ∷ rest) = merge_segments (merge_segment b segment) rest

unfoldable pub merge_name_parts : String → String
unfolding merge_segments
merge_name_parts value =
    let b =
      merge_segments (record { out_buffer = ""; name_buffer = ""; next = 0 })
        (split "; " (trim value)) in
    if is_blank b.name_buffer
    then b.out_buffer
    else concat (b.out_buffer ∷ "; name=\"" ∷ b.name_buffer ∷ "\"" ∷ [])

abbrev pub is_zip : String → Bool
is_zip content_type =
    contains content_type "application/zip"
    || contains content_type "application/zip-compressed"
    || contains content_type "application/x-zip-compressed"
    || (contains content_type "application/octet-stream" && contains content_type ".zip")

abbrev pub is_gzip_xml : String → Bool
is_gzip_xml content_type =
    contains content_type "application/gzip"
    || contains content_type "application/x-gzip"
    || (contains content_type "application/octet-stream" && contains content_type ".xml.gz")

abbrev pub is_xml : String → Bool
is_xml content_type =
    contains content_type "text/xml"
    || (contains content_type "application/octet-stream" && contains content_type ".xml")

abbrev pub is_gzip_json : String → Bool
is_gzip_json content_type = contains content_type "application/tlsrpt+gzip"

abbrev pub is_json : String → Bool
is_json content_type =
    contains content_type "application/tlsrpt+json" || contains content_type "application/json"
