-- ===== src/Handlers/Directory.antt =====
-- The `.htaccess` file that a request is filtered by, and the filtered handler.
use cse124_httpserver.Base.{
  ℕ, ◌≡◌, refl, sym, ap, false, Option, List, [], ◌∷◌, ◌++◌, length, length-append, All, All-append,
  arith, Result, ok, ◌>>=◌, ltb, if◌then◌else◌, Text, codes, text_eq, find_first, Lacks,
}
use cse124_httpserver.Util.{split, join, pop_back, canonicalize_path}
use cse124_httpserver.Util.Pieces.{split-join}
use cse124_httpserver.Http.{HttpRequest, forbidden_response, not_found_response}
use cse124_httpserver.Handlers.{
  FileRepository, htaccess_path_from_file_path, allow_by_file, allow_request, serve_file,
  site_handler,
}

pop_back-snoc {ℓ} : {A : Type ℓ} (xs : List A) (x : A) → pop_back (xs ++ x ∷ []) ≡ xs
pop_back-snoc [] x = refl
pop_back-snoc (y ∷ []) x = refl
pop_back-snoc (y ∷ z ∷ xs) x = ap (◌∷◌ y) (pop_back-snoc (z ∷ xs) x)

-- The path of a name in a directory, from the directory's names below the root.
abbrev pub path_in : List Text → Text → Text
path_in dirs name = codes "/" ++ join (codes "/") (dirs ++ name ∷ [])

path_in-join :
    (dirs : List Text) (name : Text)
    → path_in dirs name ≡ join (codes "/") ([] ∷ (dirs ++ name ∷ []))
unfolding join
path_in-join [] name = refl
path_in-join (d ∷ dirs) name = refl

split-path_in :
    (dirs : List Text) (name : Text)
    → All (Lacks b'/') dirs
    → Lacks b'/' name
    → split (path_in dirs name) (codes "/") ≡ ok ([] ∷ (dirs ++ name ∷ []))
split-path_in dirs name h k = rw path_in-join (
    split-join b'/' [] [] (dirs ++ name ∷ [])
      (tt, All-append (Lacks b'/') dirs (name ∷ []) h (k, tt)))

-- The rules for a file are those of the `.htaccess` file in the file's own directory.
htaccess_path-path_in :
    (dirs : List Text) (name : Text)
    → All (Lacks b'/') dirs
    → Lacks b'/' name
    → htaccess_path_from_file_path (path_in dirs name) ≡ ok (path_in dirs (codes ".htaccess"))
htaccess_path-path_in dirs name h k =
    let long : ltb (length ([] ∷ (dirs ++ name ∷ []))) 2 ≡ false =
      ground (arith, length-append dirs (name ∷ [])) in
    unfold htaccess_path_from_file_path in
    rw (split-path_in dirs name h k, long, pop_back-snoc ([] ∷ dirs) name)
      (ap ok (sym (path_in-join dirs (codes ".htaccess"))))

no_directory : htaccess_path_from_file_path [] ≡ ok []
unfolding htaccess_path_from_file_path text_eq find_first
no_directory = refl

allow_request-path_in :
    (inet_pton : Text → Option ℕ) (lookup : Text → Result (List ℕ)) (get_file : FileRepository)
    (request : HttpRequest) (dirs : List Text) (name : Text)
    → All (Lacks b'/') dirs
    → Lacks b'/' name
    → canonicalize_path request.uri ≡ ok (path_in dirs name)
    → allow_request inet_pton lookup get_file request
      ≡ allow_by_file inet_pton lookup (get_file (path_in dirs (codes ".htaccess"))) request
allow_request-path_in inet_pton lookup get_file request dirs name h k e =
    unfold allow_request in rw (e, htaccess_path-path_in dirs name h k) (unfold text_eq in refl)

module _ (inet_pton : Text → Option ℕ) (lookup : Text → Result (List ℕ)) (format_date : ℕ → Text)
    (get_file : FileRepository) (request : HttpRequest) where
  -- The request for a file below the root is decided by the `.htaccess` file of the file's
  -- directory, if there is one: what it allows is served as without the filter, what it denies is
  -- answered with "forbidden", and an error in it is the error of the request.
  pub site_handler-path_in :
      (dirs : List Text) (name : Text)
      → All (Lacks b'/') dirs
      → Lacks b'/' name
      → canonicalize_path request.uri ≡ ok (path_in dirs name)
      → site_handler inet_pton lookup format_date get_file request ≡ (
          allow_by_file inet_pton lookup (get_file (path_in dirs (codes ".htaccess"))) request
          >>= λ allowed.
              if allowed then serve_file format_date get_file request else ok forbidden_response)
  site_handler-path_in dirs name h k e =
      unfold site_handler in
      rw (allow_request-path_in inet_pton lookup get_file request dirs name h k e)

  -- A request whose path is refused is answered with "not found", whatever files there are.
  site_handler-refused :
      canonicalize_path request.uri ≡ ok []
      → site_handler inet_pton lookup format_date get_file request ≡ ok not_found_response
  site_handler-refused e =
      unfold site_handler allow_request serve_file in rw (e, no_directory) (unfold text_eq in refl)
