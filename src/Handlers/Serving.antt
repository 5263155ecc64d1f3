-- ===== src/Handlers/Serving.antt =====
-- `FileServingHttpHandler::handle_request` on every request.
use cse124_httpserver.Base.{
  ℕ, ◌-◌, ◌≡◌, ◌⊎◌, inl, inr, refl, ap, ◌∙◌, Bool, true, false, Option, none, some, [], ◌∷◌, ◌++◌,
  length, take, arith, ok, Bool-cases, if◌then◌else◌, Text, codes, text_eq,
}
use cse124_httpserver.Util.{canonicalize_path, ends_with, to_lowercase, join}
use cse124_httpserver.Util.Decimal.{to_string}
use cse124_httpserver.Util.Suffix.{ends_with_iff}
use cse124_httpserver.Util.Path.{IsCanonical, canonicalize_path-IsCanonical}
use cse124_httpserver.Http.{
  HttpRequest, HttpResponse, http_version_1_1, server_header, ok_status, not_found_response,
  forbidden_response, to_http_date, infer_content_type, get_header,
}
use cse124_httpserver.Handlers.{File, FileRepository, index_path, respond_with, serve_file}

-- The content type for a path with these suffixes.
abbrev pub type_by_suffix : Bool → Bool → Bool → Text
type_by_suffix true jpg png = codes "text/html"
type_by_suffix false true png = codes "image/jpeg"
type_by_suffix false false true = codes "image/png"
type_by_suffix false false false = codes "text/plain"

infer_content_type-suffixes :
    (path : Text) (html jpg png : Bool)
    → ends_with path (codes ".html") ≡ ok html
    → ends_with path (codes ".jpg") ≡ ok jpg
    → ends_with path (codes ".png") ≡ ok png
    → infer_content_type path ≡ ok (type_by_suffix html jpg png)
unfolding infer_content_type
infer_content_type-suffixes path true jpg png e e' e'' = rw e
infer_content_type-suffixes path false true png e e' e'' = rw (e, e')
infer_content_type-suffixes path false false true e e' e'' = rw (e, e', e'')
infer_content_type-suffixes path false false false e e' e'' = rw (e, e', e'')

pub infer_content_type-ok : (path : Text) → (t : Text) × (infer_content_type path ≡ ok t)
infer_content_type-ok path =
    let (html, e, _) = ends_with_iff path (codes ".html") in
    let (jpg, e', _) = ends_with_iff path (codes ".jpg") in
    let (png, e'', _) = ends_with_iff path (codes ".png") in
    (type_by_suffix html jpg png, infer_content_type-suffixes path html jpg png e e' e'')

to_http_date-ok :
    (format_date : ℕ → Text) (t : ℕ) → (d : Text) × (to_http_date format_date t ≡ ok d)
to_http_date-ok format_date t =
    let (utc, e, _) = ends_with_iff (format_date t) (codes "UTC") in
    let s = format_date t in
    (if utc then take (length s - 3) s ++ codes "GMT" else s, unfold to_http_date in rw e)

-- A response that answers for the file of the request's path, or for its absence.
abbrev pub Answers : Option File → HttpResponse → Type 0
Answers none response = response ≡ not_found_response
Answers (some file) response =
    ((file.world_readable ≡ false) × (response ≡ forbidden_response))
    ⊎ ((file.world_readable ≡ true)
        × (response.status ≡ ok_status)
        × (response.body ≡ file.file_contents)
        × ((get_header response.headers (codes "Content-Length")).value
            ≡ to_string (length file.file_contents)))

abbrev page : Text → Text → Text → HttpResponse
page body content_type date = record {
  version = http_version_1_1;
  status = ok_status;
  headers =
      server_header
      ∷ record { key = codes "Content-Length"; value = to_string (length body) }
      ∷ record { key = codes "Content-Type"; value = content_type }
      ∷ record { key = codes "Last-Modified"; value = date }
      ∷ [];
  body = body;
}

ok_response-Answers :
    (format_date : ℕ → Text) (path t : Text) (file : File)
    → infer_content_type path ≡ ok t
    → file.world_readable ≡ true
    → (response : HttpResponse) × (respond_with format_date path (some file) ≡ ok response)
      × Answers (some file) response
ok_response-Answers format_date path t file e readable =
    let (d, dated) = to_http_date-ok format_date file.last_modified in
    (
      page file.file_contents t d,
      unfold respond_with in rw (readable, e, dated),
      inr (readable, refl, refl, unfold get_header text_eq to_lowercase in refl),
    )

respond_with-Answers :
    (format_date : ℕ → Text) (path : Text) (found : Option File)
    → (response : HttpResponse) × (respond_with format_date path found ≡ ok response)
      × Answers found response
respond_with-Answers format_date path none = (not_found_response, unfold respond_with in refl, refl)
respond_with-Answers format_date path (some file) = elim (Bool-cases file.world_readable) [
  | inl readable ↦
      let (t, e) = infer_content_type-ok path in
      ok_response-Answers format_date path t file e readable
  | inr hidden ↦ (forbidden_response, unfold respond_with in rw hidden, inl (hidden, refl))
]

canonical-ne_nil : (path : Text) → IsCanonical path → text_eq path [] ≡ false
canonical-ne_nil path (parts, e, _) = rw e (unfold text_eq in refl)

index_path-IsCanonical : (path : Text) → IsCanonical path → IsCanonical (index_path path)
index_path-IsCanonical path c = elim (Bool-cases (text_eq path (codes "/"))) [
  | inl root ↦
      rw root (
        codes "index.html" ∷ [],
        unfold join in refl,
        ((λ e. cc, λ e. cc, λ e. cc, omega arith), tt),
      )
  | inr other ↦ rw other c
]

module _ (format_date : ℕ → Text) (get_file : FileRepository) (request : HttpRequest) where
  -- The handler answers every request: with "not found" where the path of the uri is refused, and
  -- otherwise for the file that the repository has at the canonical path, "/" standing for
  -- "/index.html". Only a file that is world readable is sent, whole, and its length with it.
  pub serve_file-Answers :
      (response : HttpResponse) × (serve_file format_date get_file request ≡ ok response)
      × (((canonicalize_path request.uri ≡ ok []) × (response ≡ not_found_response))
          ⊎ ((path : Text) × (canonicalize_path request.uri ≡ ok path)
              × IsCanonical path
              × Answers (get_file (index_path path)) response))
  serve_file-Answers =
      let (path, e, shape) = canonicalize_path-IsCanonical request.uri in
      elim shape [
        | inl empty ↦ (
          not_found_response,
          unfold serve_file in rw (e, empty) (unfold text_eq in refl),
          inl (e ∙ ap ok empty, refl),
        )
        | inr canonical ↦
            let (response, answered, right) =
              respond_with-Answers format_date (index_path path) (get_file (index_path path)) in
            (
              response,
              unfold serve_file in rw (e, canonical-ne_nil path canonical) answered,
              inr (path, e, canonical, right),
            )
      ]

-- Of two repositories that agree on the canonical paths, the handler makes the same responses: what
-- a request gets does not depend on any other path, such as one that leads out of the root.
pub serve_file_canonical_only :
    (format_date : ℕ → Text) (get_file get_file' : FileRepository) (request : HttpRequest)
    → ((path : Text) → IsCanonical path → get_file path ≡ get_file' path)
    → serve_file format_date get_file request ≡ serve_file format_date get_file' request
serve_file_canonical_only format_date get_file get_file' request same =
    let (path, e, shape) = canonicalize_path-IsCanonical request.uri in
    elim shape [
      | inl empty ↦ unfold serve_file in rw (e, empty) (unfold text_eq in refl)
      | inr canonical ↦
          unfold serve_file in
          rw (e, same (index_path path) (index_path-IsCanonical path canonical))
    ]
