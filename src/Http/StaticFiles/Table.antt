-- ===== src/Http/StaticFiles/Table.antt =====
-- src/http/static_files.rs: every file of the table is served, and nothing else.
use dmarc_report_viewer.Common.{
  ℕ, ◌≡◌, refl, if◌then◌else◌, String, List, [], ◌∷◌, map, true, false, ◌==◌, inl, inr, string_eq,
  ap, ◌∙◌, Bool, not, ◌&&◌, any, all, not-In-nil, In-map_iff, &&_left, In, here, there, Bool-cases,
  arith, sym,
}
use dmarc_report_viewer.Common.Result.{Result, ok, err, Result-cases}
use dmarc_report_viewer.Common.Text.{ends_with}
use dmarc_report_viewer.Common.Texts.{as_bytes}
use dmarc_report_viewer.Http.StaticFiles.{
  content, StaticFile, FileEnv, static_files, from_path, found, missing, serve, handler,
}

-- No text stands twice.
are_distinct : List String → Bool
are_distinct [] = true
are_distinct (p ∷ rest) = not (any (λ q. q == p) rest) && are_distinct rest

pub not_any :
    (p : String → Bool) (xs : List String) (x : String)
    → In x xs
    → p x ≡ true
    → any p xs ≡ false
    → ⊥
unfolding any
not_any p [] x i t h = absurd (not-In-nil i)
not_any p (y ∷ xs) x (here e) t h = let s : p x ≡ p y = ap p e in ground arith
not_any p (y ∷ xs) x (there i) t h = not_any p xs x i t (ground arith)

all-In :
    (p : StaticFile → Bool) (f : StaticFile) (fs : List StaticFile)
    → all p fs ≡ true
    → In f fs
    → p f ≡ true
unfolding all
all-In p f [] h i = absurd (not-In-nil i)
all-In p f (g ∷ fs) h (here e) = ap p e ∙ &&_left (p g) (all p fs) h
all-In p f (g ∷ fs) h (there i) = all-In p f fs (ground arith) i

-- A page of HTML by the end of its name, and a script else
abbrev pub page_type : String → String
page_type file_path = if ends_with file_path ".html" then "text/html" else "text/javascript"

-- A debug build takes the file of the checkout, if it can be read, and else what is built in.
abbrev pub page_body : Bool → Result (List ℕ) → List ℕ → List ℕ
page_body true (ok bytes) embedded = bytes
page_body true (err e) embedded = embedded
page_body false read embedded = embedded

paths_distinct : are_distinct (map (λ f. f.http_path) static_files) ≡ true
unfolding are_distinct any
paths_distinct = refl

typed_as_pages : all (λ f. from_path f.file_path == page_type f.file_path) static_files ≡ true
unfolding all from_path ends_with
typed_as_pages = refl

module _ (env : FileEnv) where
  served_missing :
      (files : List StaticFile) (path : String)
      → ¬ In path (map (λ sf. sf.http_path) files)
      → serve env files path ≡ missing env
  unfolding serve
  served_missing [] path h = refl
  served_missing (sf ∷ rest) path h = elim (Bool-cases (sf.http_path == path)) [
    | inl e ↦ absurd (h (here (sym ((string_eq.equals_iff sf.http_path path).0 e))))
    | inr e ↦ rw (e, serve) (served_missing rest path (λ i. h (there i)))
  ]

  serve-In :
      (files : List StaticFile) (sf : StaticFile)
      → are_distinct (map (λ f. f.http_path) files) ≡ true
      → In sf files
      → serve env files sf.http_path ≡ found env sf
  unfolding serve are_distinct
  serve-In [] sf d i = absurd (not-In-nil i)
  serve-In (f ∷ rest) sf d (here e) =
      rw (← e, (string_eq.equals_iff sf.http_path sf.http_path).1 refl, serve) refl
  serve-In (f ∷ rest) sf d (there i) = elim (Bool-cases (f.http_path == sf.http_path)) [
    | inl e ↦ absurd (
        not_any (λ p. p == f.http_path) (map (λ f. f.http_path) rest) sf.http_path
          ((In-map_iff (λ f. f.http_path) sf.http_path rest).1 (sf, i, refl))
          (ground (
            arith,
            string_eq.equals_iff f.http_path sf.http_path,
            string_eq.equals_iff sf.http_path f.http_path,
          ))
          (ground arith))
    | inr e ↦ rw (e, serve) (serve-In rest sf (ground arith) i)
  ]

  content-page_body :
      (file_path : String)
      → content env file_path
        ≡ page_body env.debug_assertions (env.read_file file_path) (env.embedded file_path)
  unfolding content
  content-page_body file_path = elim (Bool-cases env.debug_assertions) [
    | inl debug ↦ elim (Result-cases (env.read_file file_path)) [
      | inl (bytes, e) ↦ rw (debug, e, content) refl
      | inr (message, e) ↦ rw (debug, e, content) refl
    ]
    | inr release ↦ rw (release, content) refl
  ]

  -- Each file of the table is served under its path with status 200: its type is HTML if its name ends in
  -- `.html` and JavaScript else, its body is what is built in, or in a debug build the file of the
  -- checkout if that can be read. Any path that is not in the table is answered with status 404.
  pub handler-static_files :
      (sf : StaticFile) (path : String)
      → In sf static_files
      → ¬ In path (map (λ sf. sf.http_path) static_files)
      → (handler env sf.http_path ≡ record {
        status = 200;
        content_type = page_type sf.file_path;
        body =
            page_body env.debug_assertions (env.read_file sf.file_path) (env.embedded sf.file_path);
      })
        × (handler env path ≡ record {
          status = 404;
          content_type = "text/plain";
          body = as_bytes "File not found";
        })
  unfolding handler
  handler-static_files sf path listed unlisted =
      let typed : from_path sf.file_path ≡ page_type sf.file_path =
        (string_eq.equals_iff (from_path sf.file_path) (page_type sf.file_path)).0 (
          all-In (λ f. from_path f.file_path == page_type f.file_path) sf static_files
            typed_as_pages listed) in
      (
        serve-In static_files sf paths_distinct listed
            ∙ ap (λ t. record { status = 200; content_type = t; body = content env sf.file_path })
                typed
            ∙ ap (λ b. record { status = 200; content_type = page_type sf.file_path; body = b })
                (content-page_body sf.file_path),
        served_missing static_files path unlisted,
      )
