-- ===== src/AsyncHandlers/Blocking.antt =====
-- The asynchronous handlers against the blocking ones.
use cse124_httpserver.Base.{
  ℕ, ◌≡◌, inl, inr, refl, ap, ◌∙◌, Bool, true, false, Bool-cases, Option, none, some, List, [],
  if◌then◌else◌, Text, text_eq, Result, ok, throw, undefined, no_fuel,
}
use cse124_httpserver.Base.{◌>>=◌ as bind}
use cse124_httpserver.Util.{canonicalize_path}
use cse124_httpserver.Http.{HttpRequest, HttpResponse, forbidden_response}
use cse124_httpserver.Handlers.{
  File, FileRepository, htaccess_path_from_file_path, index_path, allow_by_file, allow_request,
  respond_with, serve_file, filter_request, site_handler,
}
use cse124_httpserver.AsyncHandlers.{
  Task, returns, throws, faults, starves, reads_file, ◌>>=◌, call, decide_by, allow_by_async_file,
  allow_request_async, page_response, respond_with_async, serve_file_async, filter_request_async,
  site_handler_async,
}

-- The outcome of a task whose reads bring these contents.
abbrev pub supply : {A : Type 0} → (Text → Text) → Task A → Result A
supply contents (returns a) = ok a
supply contents (throws e) = throw e
supply contents faults = undefined
supply contents starves = no_fuel
supply contents (reads_file path k) = supply contents (k (contents path))

supply-bind :
    {A B : Type 0} (contents : Text → Text) (t : Task A) (f : A → Task B)
    → supply contents (t >>= f) ≡ bind (supply contents t) (λ a. supply contents (f a))
supply-bind contents (returns a) f = refl
supply-bind contents (throws e) f = refl
supply-bind contents faults f = refl
supply-bind contents starves f = refl
supply-bind contents (reads_file path k) f = supply-bind contents (k (contents path)) f

supply-call : {A : Type 0} (contents : Text → Text) (r : Result A) → supply contents (call r) ≡ r
supply-call contents (ok a) = refl
supply-call contents (throw e) = refl
supply-call contents undefined = refl
supply-call contents no_fuel = refl

bind-ext :
    {A B : Type 0} (r : Result A) {f g : A → Result B} → ((a : A) → f a ≡ g a) → bind r f ≡ bind r g
bind-ext (ok a) h = h a
bind-ext (throw e) h = refl
bind-ext undefined h = refl
bind-ext no_fuel h = refl

-- A call that takes no callback, and then what the callback does.
supply-call-bind :
    {A B : Type 0} (contents : Text → Text) (r : Result A) (f : A → Task B) {g : A → Result B}
    → ((a : A) → supply contents (f a) ≡ g a)
    → supply contents (call r >>= f) ≡ bind r g
supply-call-bind contents (ok a) f h = h a
supply-call-bind contents (throw e) f h = refl
supply-call-bind contents undefined f h = refl
supply-call-bind contents no_fuel f h = refl

supply-filter :
    (contents : Text → Text) (filter : HttpRequest → Task Bool)
    (handler : HttpRequest → Task HttpResponse) (filter' : HttpRequest → Result Bool)
    (handler' : HttpRequest → Result HttpResponse) (request : HttpRequest)
    → supply contents (filter request) ≡ filter' request
    → supply contents (handler request) ≡ handler' request
    → supply contents (filter_request_async filter handler request)
      ≡ filter_request filter' handler' request
unfolding filter_request_async filter_request
supply-filter contents filter handler filter' handler' request e e' =
    supply-bind contents (filter request) _ ∙ rw e (bind-ext (filter' request) (λ b. decided b))
  where
    decided :
        (b : Bool)
        → supply contents (if b then handler request else returns forbidden_response)
          ≡ (if b then handler' request else ok forbidden_response)
    decided true = e'
    decided false = refl

module _ (inet_pton : Text → Option ℕ) (lookup : Text → Result (List ℕ)) (format_date : ℕ → Text)
    (get_file : FileRepository) (contents : Text → Text)
    (holds : (path : Text) (file : File)
      → get_file path ≡ some file
      → contents path ≡ file.file_contents)
    (request : HttpRequest) where
  supply-allow_by :
      (path : Text) (found : Option File)
      → get_file path ≡ found
      → supply contents (allow_by_async_file inet_pton lookup path found request)
        ≡ allow_by_file inet_pton lookup found request
  unfolding allow_by_async_file allow_by_file decide_by
  supply-allow_by path none e = refl
  supply-allow_by path (some file) e =
      supply-call contents (decide_by inet_pton lookup request (contents path))
      ∙ ap (decide_by inet_pton lookup request) (holds path file e)

  supply-allow_request :
      supply contents (allow_request_async inet_pton lookup get_file request)
      ≡ allow_request inet_pton lookup get_file request
  unfolding allow_request_async allow_request
  supply-allow_request = supply-call-bind contents (canonicalize_path request.uri) _ λ path.
      supply-call-bind contents (htaccess_path_from_file_path path) _ λ htaccess_path.
        elim (Bool-cases (text_eq htaccess_path [])) [
          | inl e ↦ rw e refl
          | inr e ↦ rw e (supply-allow_by htaccess_path (get_file htaccess_path) refl)
        ]

  supply-respond_with :
      (path : Text) (found : Option File)
      → get_file path ≡ found
      → supply contents (respond_with_async format_date path found)
        ≡ respond_with format_date path found
  unfolding respond_with_async respond_with page_response
  supply-respond_with path none e = refl
  supply-respond_with path (some file) e = elim (Bool-cases file.world_readable) [
    | inl readable ↦ rw readable (
        supply-call contents (page_response format_date path file.last_modified (contents path))
        ∙ ap (page_response format_date path file.last_modified) (holds path file e))
    | inr hidden ↦ rw hidden refl
  ]

  supply-serve_file :
      supply contents (serve_file_async format_date get_file request)
      ≡ serve_file format_date get_file request
  unfolding serve_file_async serve_file
  supply-serve_file = supply-call-bind contents (canonicalize_path request.uri) _ λ path.
      elim (Bool-cases (text_eq path [])) [
        | inl e ↦ rw e refl
        | inr e ↦ rw e (supply-respond_with (index_path path) (get_file (index_path path)) refl)
      ]

  -- If the reads bring the contents of the files, the asynchronous handler of the server comes to the
  -- outcome of the blocking one, on every request, exceptions included.
  pub supply-site_handler :
      supply contents (site_handler_async inet_pton lookup format_date get_file request)
      ≡ site_handler inet_pton lookup format_date get_file request
  unfolding site_handler_async site_handler
  supply-site_handler =
      supply-filter contents (allow_request_async inet_pton lookup get_file)
        (serve_file_async format_date get_file) (allow_request inet_pton lookup get_file)
        (serve_file format_date get_file) request supply-allow_request supply-serve_file
