-- ===== src/Http/StaticFiles.antt =====
-- src/http/static_files.rs: the files of the user interface. Their content is put in when the program
-- is built; a debug build reads them from the checkout first.
pub mod Table
use dmarc_report_viewer.Common.{
  ℕ, String, List, [], ◌∷◌, Bool, true, false, if◌then◌else◌, ◌==◌, string_eq,
}
use dmarc_report_viewer.Common.Result.{Result, ok, err}
use dmarc_report_viewer.Common.Text.{ends_with}
use dmarc_report_viewer.Common.Texts.{as_bytes}

-- `data` of a file is `embedded` at its path.
pub record StaticFile : Type 0 where
  pub http_path : String
  pub file_path : String

pub record MimeType : Type 0 where
  pub ext : String
  pub mime_type : String

pub record FileEnv : Type 0 where
  pub debug_assertions : Bool
  pub embedded : String → List ℕ
  pub read_file : String → Result (List ℕ)

pub record FileResponse : Type 0 where
  pub status : ℕ
  pub content_type : String
  pub body : List ℕ

abbrev pub static_files : List StaticFile
static_files =
    (record { http_path = "/"; file_path = "ui/index.html" }
      ∷ record { http_path = "/chart.js"; file_path = "ui/chart.umd.4.5.0.min.js" }
      ∷ record { http_path = "/lit.js"; file_path = "ui/lit-core.3.3.0.min.js" }
      ∷ record { http_path = "/style.js"; file_path = "ui/style.js" }
      ∷ record { http_path = "/utils.js"; file_path = "ui/utils.js" }
      ∷ record { http_path = "/date-filter.js"; file_path = "ui/date-filter.js" }
      ∷ record { http_path = "/components/app.js"; file_path = "ui/components/app.js" }
      ∷ record { http_path = "/components/dashboard.js"; file_path = "ui/components/dashboard.js" }
      ∷ record {
        http_path = "/components/mail-table.js";
        file_path = "ui/components/mail-table.js";
      }
      ∷ record {
        http_path = "/components/dmarc-report.js";
        file_path = "ui/components/dmarc-report.js";
      }
      ∷ record {
        http_path = "/components/tls-report.js";
        file_path = "ui/components/tls-report.js";
      }
      ∷ record {
        http_path = "/components/dmarc-reports.js";
        file_path = "ui/components/dmarc-reports.js";
      }
      ∷ record {
        http_path = "/components/tls-reports.js";
        file_path = "ui/components/tls-reports.js";
      }
      ∷ record { http_path = "/components/mails.js"; file_path = "ui/components/mails.js" }
      ∷ record { http_path = "/components/mail.js"; file_path = "ui/components/mail.js" }
      ∷ record { http_path = "/components/sources.js"; file_path = "ui/components/sources.js" }
      ∷ record { http_path = "/components/about.js"; file_path = "ui/components/about.js" }
      ∷ record {
        http_path = "/components/dmarc-report-table.js";
        file_path = "ui/components/dmarc-report-table.js";
      }
      ∷ record {
        http_path = "/components/tls-report-table.js";
        file_path = "ui/components/tls-report-table.js";
      }
      ∷ [])

abbrev pub mime_types : List MimeType
mime_types =
    (record { ext = ".html"; mime_type = "text/html" }
      ∷ record { ext = ".js"; mime_type = "text/javascript" }
      ∷ record { ext = ".css"; mime_type = "text/css" }
      ∷ [])

-- The loop over the types
unfoldable pub type_of : List MimeType → String → String
type_of [] file_path = "application/octet-stream"
type_of (mt ∷ rest) file_path =
    if ends_with file_path mt.ext then mt.mime_type else type_of rest file_path

unfoldable pub from_path : String → String
unfolding type_of
from_path file_path = type_of mime_types file_path

abbrev or_embedded : Result (List ℕ) → List ℕ → List ℕ
or_embedded (ok bytes) embedded = bytes
or_embedded (err e) embedded = embedded

module _ (env : FileEnv) where
  unfoldable pub content : String → List ℕ
  content file_path =
      if env.debug_assertions
      then or_embedded (env.read_file file_path) (env.embedded file_path)
      else env.embedded file_path

  abbrev pub found : StaticFile → FileResponse
  found sf = record {
    status = 200;
    content_type = from_path sf.file_path;
    body = content sf.file_path;
  }

  abbrev pub missing : FileResponse
  missing = record { status = 404; content_type = "text/plain"; body = as_bytes "File not found" }

  -- The loop over the files
  unfoldable pub serve : List StaticFile → String → FileResponse
  serve [] path = missing
  serve (sf ∷ rest) path = if sf.http_path == path then found sf else serve rest path

  unfoldable pub handler : String → FileResponse
  unfolding serve
  handler path = serve static_files path
