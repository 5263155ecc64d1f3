-- ===== src/AsyncHandlers.antt =====
-- async_request_filters.cpp, async_request_handlers.cpp and the repository of
-- async_file_repository.cpp. A function that takes a callback is a task: to call the callback is to
-- return, and to return a pollable that reads a file is to suspend with the callback of that read.
-- `access` and `stat` do not suspend; a file is looked up as in Handlers.
pub mod Blocking
use cse124_httpserver.Base.{
  ℕ, Bool, true, false, Option, none, some, List, [], ◌∷◌, if◌then◌else◌, Text, codes, text_eq,
  Exception, Result, ok, throw, undefined, no_fuel,
}
use cse124_httpserver.Base.{◌>>=◌ as bind}
use cse124_httpserver.Util.{canonicalize_path}
use cse124_httpserver.Http.{
  HttpRequest, HttpResponse, ok_response, not_found_response, forbidden_response,
  infer_content_type,
}
use cse124_httpserver.Htaccess.{allows, parse_htaccess_rules}
use cse124_httpserver.Handlers.{File, FileRepository, htaccess_path_from_file_path, index_path}

-- How a task goes on; a task that throws does so before its callback is called.
pub data Task (A : Type 0) : Type 0 where
  returns : A → Task A
  throws : Exception → Task A
  faults starves : Task A
  reads_file : Text → (Text → Task A) → Task A

infixl 5 ◌>>=◌
abbrev pub ◌>>=◌ : {A B : Type 0} → Task A → (A → Task B) → Task B
returns a >>= f = f a
throws e >>= f = throws e
faults >>= f = faults
starves >>= f = starves
reads_file path k >>= f = reads_file path (λ s. k s >>= f)

-- A call that takes no callback.
abbrev pub call : {A : Type 0} → Result A → Task A
call (ok a) = returns a
call (throw e) = throws e
call undefined = faults
call no_fuel = starves

module _ (inet_pton : Text → Option ℕ) (lookup : Text → Result (List ℕ)) where
  -- The callback of the `.htaccess` file's contents.
  unfoldable pub decide_by : HttpRequest → Text → Result Bool
  unfolding parse_htaccess_rules allows
  decide_by request contents =
      bind (parse_htaccess_rules inet_pton lookup contents)
        (λ rules. allows rules request.remote_ip)

  -- The callback of the `.htaccess` file itself.
  unfoldable pub allow_by_async_file : Text → Option File → HttpRequest → Task Bool
  unfolding decide_by
  allow_by_async_file htaccess_path none request = returns true
  allow_by_async_file htaccess_path (some file) request =
      reads_file htaccess_path (λ contents. call (decide_by request contents))

  -- `AsyncHtAccessRequestFilter::allow_request`
  unfoldable pub allow_request_async : FileRepository → HttpRequest → Task Bool
  unfolding allow_by_async_file
  allow_request_async get_file request = do
    path ← call (canonicalize_path request.uri)
    htaccess_path ← call (htaccess_path_from_file_path path)
    if text_eq htaccess_path []
        then returns true
        else allow_by_async_file htaccess_path (get_file htaccess_path) request

module _ (format_date : ℕ → Text) where
  -- The callback of the page's contents, and of its time.
  unfoldable pub page_response : Text → ℕ → Text → Result HttpResponse
  unfolding infer_content_type ok_response
  page_response path last_modified contents =
      bind (infer_content_type path)
        (λ content_type. ok_response format_date contents content_type last_modified)

  -- The callback of the page itself.
  unfoldable pub respond_with_async : Text → Option File → Task HttpResponse
  unfolding page_response
  respond_with_async path none = returns not_found_response
  respond_with_async path (some file) =
      if file.world_readable
      then reads_file path (λ contents. call (page_response path file.last_modified contents))
      else returns forbidden_response

  -- `FileServingAsyncHttpRequestHandler::handle_request`
  unfoldable pub serve_file_async : FileRepository → HttpRequest → Task HttpResponse
  unfolding respond_with_async
  serve_file_async get_file request = do
    path ← call (canonicalize_path request.uri)
    if text_eq path []
        then returns not_found_response
        else respond_with_async (index_path path) (get_file (index_path path))

-- `AsyncRequestFilterMiddleware::handle_request`
unfoldable pub filter_request_async :
    (HttpRequest → Task Bool) → (HttpRequest → Task HttpResponse) → HttpRequest → Task HttpResponse
filter_request_async filter handler request = do
  allowed ← filter request
  if allowed then handler request else returns forbidden_response

-- httpd.cpp: the handler that `serve_async` builds.
unfoldable pub site_handler_async :
    (Text → Option ℕ)
    → (Text → Result (List ℕ))
    → (ℕ → Text)
    → FileRepository
    → HttpRequest
    → Task HttpResponse
unfolding filter_request_async allow_request_async serve_file_async
site_handler_async inet_pton lookup format_date get_file =
    filter_request_async (allow_request_async inet_pton lookup get_file)
      (serve_file_async format_date get_file)
