-- ===== src/Tests/Handlers.antt =====
-- The request handlers on examples.
use cse124_httpserver.Base.{
  ℕ, ◌≡◌, ◌⊎◌, refl, arith, true, none, some, [], ◌∷◌, ◌++◌, if◌then◌else◌, Text, codes, text_eq,
  text_eq_iff, false, ok, ◌>>=◌,
}
use cse124_httpserver.Util.{canonicalize_path}
use cse124_httpserver.Util.Path.{IsCanonical}
use cse124_httpserver.Http.{HttpRequest, HttpResponse, not_found_response, forbidden_response}
use cse124_httpserver.Handlers.{
  directory_get_file, File, FileRepository, allow_by_file, index_path, serve_file, site_handler,
}
use cse124_httpserver.Handlers.Files.{FileSystem, find_path, AnswersPath, serve_file-AnswersPath}
use cse124_httpserver.Handlers.Serving.{Answers, serve_file-Answers, serve_file_canonical_only}
use cse124_httpserver.Handlers.Directory.{path_in, site_handler-path_in}
use cse124_httpserver.Tests.Htaccess.{knows_ten, finds_none}

abbrev pub dated : ℕ → Text
dated t = codes "Thu, 01 Jan 1970 00:00:00 UTC"

-- One page, in a directory with rules.
abbrev cat_page : File
cat_page = record { world_readable = true; file_contents = codes "meow"; last_modified = 0 }

abbrev cat_rules : File
cat_rules = record {
  world_readable = true;
  file_contents = codes "deny from 10.0.0.0/8";
  last_modified = 0;
}

abbrev pub site : FileRepository
site path =
    if text_eq path (codes "/pets/cat.html")
    then some cat_page
    else if text_eq path (codes "/pets/.htaccess")
    then some cat_rules
    else none

abbrev request_of : Text → HttpRequest
request_of uri = record {
  method = codes "GET";
  uri = uri;
  version = codes "HTTP/1.1";
  headers = [];
  body = [];
  remote_ip = 1;
}

abbrev pub cat_request : HttpRequest
cat_request = request_of (codes "/pets/./cat.html")

abbrev climbing_request : HttpRequest
climbing_request = request_of (codes "/../secret")

cat_path :
    canonicalize_path (codes "/pets/./cat.html")
    ≡ ok (path_in (codes "pets" ∷ []) (codes "cat.html"))
unfolding canonicalize_path text_eq
cat_path = refl

serve_file-Answers_example :
    (response : HttpResponse) × (serve_file dated site cat_request ≡ ok response)
    × (((canonicalize_path cat_request.uri ≡ ok []) × (response ≡ not_found_response))
        ⊎ ((path : Text) × (canonicalize_path cat_request.uri ≡ ok path)
            × IsCanonical path
            × Answers (site (index_path path)) response))
serve_file-Answers_example = serve_file-Answers dated site cat_request

-- Another repository, which also gives a file for a path out of the root.
abbrev leaky_site : FileRepository
leaky_site path = if text_eq path (codes "../secret") then some cat_page else site path

-- The leaky repository differs from the other on that path only, which is not canonical.
same_canonical : (path : Text) → IsCanonical path → site path ≡ leaky_site path
same_canonical path (parts, e, safe) =
    let rooted : text_eq path (codes "../secret") ≡ false =
      ground (arith, text_eq_iff path (codes "../secret")) in
    rw (rooted) refl

leaks : leaky_site (codes "../secret") ≡ some cat_page
unfolding text_eq
leaks = refl

serve_file_canonical_only_example :
    serve_file dated site cat_request ≡ serve_file dated leaky_site cat_request
serve_file_canonical_only_example =
    serve_file_canonical_only dated site leaky_site cat_request same_canonical

site_handler-path_in_example : site_handler knows_ten finds_none dated site cat_request ≡ (
    allow_by_file knows_ten finds_none
      (site (path_in (codes "pets" ∷ []) (codes ".htaccess")))
      cat_request
    >>= λ allowed. if allowed then serve_file dated site cat_request else ok forbidden_response)
site_handler-path_in_example =
    site_handler-path_in knows_ten finds_none dated site cat_request (codes "pets" ∷ [])
      (codes "cat.html") (ground arith) (ground arith) cat_path

-- A system in which every file is there, and others may read it.
abbrev meowing : FileSystem
meowing = record {
  exists = λ path. true;
  st_mode = λ path. 420;
  st_mtime = λ path. 0;
  bytes = λ path. codes "meow";
}

abbrev cat_file : Text
cat_file = path_in (codes "pets" ∷ []) (codes "cat.html")

serve_file-AnswersPath_example :
    (response : HttpResponse) × (serve_file dated
        (directory_get_file (find_path meowing) (codes "/www"))
        cat_request
      ≡ ok response)
    × AnswersPath meowing (codes "/www" ++ (codes "/" ++ index_path cat_file)) response
serve_file-AnswersPath_example =
    serve_file-AnswersPath dated meowing (codes "/www") cat_file cat_request cat_path (λ e. cc)
