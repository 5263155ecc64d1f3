-- ===== src/Handlers.antt =====
-- file_repository.cpp, request_filters.cpp and request_handlers.cpp: from a request to a response.
-- A repository is a function from paths to files, which do not change while a request is served.
-- An absent `shared_ptr<File>` is `none`.
pub mod Directory
pub mod Serving
pub mod Files
use cse124_httpserver.Base.{
  ℕ, Bool, true, false, Option, none, some, List, [], ◌∷◌, ◌++◌, length, ltb, if◌then◌else◌, Text,
  codes, text_eq, Result, ok, ◌>>=◌,
}
use cse124_httpserver.Util.{split, join, pop_back, canonicalize_path}
use cse124_httpserver.Http.{
  HttpRequest, HttpResponse, ok_response, not_found_response, forbidden_response,
  infer_content_type,
}
use cse124_httpserver.Htaccess.{allows, parse_htaccess_rules}

pub record File : Type 0 where
  pub world_readable : Bool
  pub file_contents : Text
  pub last_modified : ℕ

abbrev pub FileRepository : Type 0
FileRepository = Text → Option File

-- `DirectoryFileRepository::get_file`; `file_system` is `access` and `stat` of the system.
unfoldable pub directory_get_file : (Text → Option File) → Text → FileRepository
directory_get_file file_system directory_path path =
    file_system (directory_path ++ (codes "/" ++ path))

unfoldable pub htaccess_path_from_file_path : Text → Result Text
unfolding split join
htaccess_path_from_file_path path = do
  parts ← split path (codes "/")
  if ltb (length parts) 2
      then ok []
      else ok (join (codes "/") (pop_back parts ++ codes ".htaccess" ∷ []))

module _ (inet_pton : Text → Option ℕ) (lookup : Text → Result (List ℕ)) where
  -- The branch of `allow_request` with a file.
  unfoldable pub allow_by_file : Option File → HttpRequest → Result Bool
  unfolding parse_htaccess_rules allows
  allow_by_file none request = ok true
  allow_by_file (some file) request = do
    rules ← parse_htaccess_rules inet_pton lookup file.file_contents
    allows rules request.remote_ip

  -- `HtAccessRequestFilter::allow_request`
  unfoldable pub allow_request : FileRepository → HttpRequest → Result Bool
  allow_request get_file request = do
    path ← canonicalize_path request.uri
    htaccess_path ← htaccess_path_from_file_path path
    if text_eq htaccess_path [] then ok true else allow_by_file (get_file htaccess_path) request

-- `if (path == "/") { path = "/index.html"; }`
abbrev pub index_path : Text → Text
index_path path = if text_eq path (codes "/") then codes "/index.html" else path

module _ (format_date : ℕ → Text) where
  -- What the file at `path` is answered with.
  unfoldable pub respond_with : Text → Option File → Result HttpResponse
  unfolding infer_content_type ok_response
  respond_with path none = ok not_found_response
  respond_with path (some file) =
      if file.world_readable
      then (do
        content_type ← infer_content_type path
        ok_response format_date file.file_contents content_type file.last_modified)
      else ok forbidden_response

  -- `FileServingHttpHandler::handle_request`
  unfoldable pub serve_file : FileRepository → HttpRequest → Result HttpResponse
  serve_file get_file request = do
    path ← canonicalize_path request.uri
    if text_eq path []
        then ok not_found_response
        else respond_with (index_path path) (get_file (index_path path))

-- `RequestFilterMiddleware::handle_request`
unfoldable pub filter_request :
    (HttpRequest → Result Bool)
    → (HttpRequest → Result HttpResponse)
    → HttpRequest
    → Result HttpResponse
filter_request filter handler request = do
  allowed ← filter request
  if allowed then handler request else ok forbidden_response

-- httpd.cpp: the handler that `serve_sync` builds.
unfoldable pub site_handler :
    (Text → Option ℕ)
    → (Text → Result (List ℕ))
    → (ℕ → Text)
    → FileRepository
    → HttpRequest
    → Result HttpResponse
unfolding filter_request
site_handler inet_pton lookup format_date get_file =
    filter_request (allow_request inet_pton lookup get_file) (serve_file format_date get_file)
