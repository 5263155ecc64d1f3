-- ===== src/Handlers/Files.antt =====
-- file_repository.cpp and the files of async_file_repository.cpp: a file by its path. What `access`,
-- `stat` and `read` of the system give is a parameter; it does not change while a request is served.
use Prim.Native.Nat.{bit_and}
use cse124_httpserver.Base.{
  ℕ, zero, suc, ◌≤◌, ◌*◌, ◌/◌, ◌%◌, ◌≡◌, ◌≢◌, ◌⊎◌, inl, inr, Bool, true, false, not, Bool-cases,
  Option, none, some, [], ◌++◌, arith, bit_and_digit, ◌==◌, if◌then◌else◌, Text, codes, ok,
}
use cse124_httpserver.Util.{canonicalize_path}
use cse124_httpserver.Http.{
  HttpRequest, HttpResponse, ok_status, not_found_response, forbidden_response,
}
use cse124_httpserver.Handlers.{File, directory_get_file, index_path, serve_file}
use cse124_httpserver.Handlers.Serving.{Answers, serve_file-Answers}

-- Whether `access(path, F_OK)` succeeds, `st_mode` and `st_mtime` of `stat`, and the bytes of a file.
pub record FileSystem : Type 0 where
  pub exists : Text → Bool
  pub st_mode : Text → ℕ
  pub st_mtime : Text → ℕ
  pub bytes : Text → Text

abbrev s_iroth : ℕ
s_iroth = 4

-- `PathFile`: the conversion of `st_mode & S_IROTH` to `bool`, the bytes, and the time.
abbrev pub path_file : FileSystem → Text → File
path_file system path = record {
  world_readable = not (bit_and (system.st_mode path) s_iroth == 0);
  file_contents = system.bytes path;
  last_modified = system.st_mtime path;
}

-- The test of `DirectoryFileRepository::get_file`, and of `DirectoryAsyncFileRepository::read_file`.
abbrev pub find_path : FileSystem → Text → Option File
find_path system path = if system.exists path then some (path_file system path) else none

-- What `PathAsyncFile::read_contents` reads, by the path in the repository.
abbrev pub bytes_below : FileSystem → Text → Text → Text
bytes_below system directory_path path = system.bytes (directory_path ++ (codes "/" ++ path))

-- A read of a file that is there brings the contents that the blocking server sends.
pub bytes_below-directory_get_file :
    (system : FileSystem) (directory_path path : Text) (file : File)
    → directory_get_file (find_path system) directory_path path ≡ some file
    → bytes_below system directory_path path ≡ file.file_contents
unfolding directory_get_file
bytes_below-directory_get_file system directory_path path file e =
    elim (Bool-cases (system.exists (directory_path ++ (codes "/" ++ path)))) [
      | inl there ↦
          let e' : some (path_file system (directory_path ++ (codes "/" ++ path))) ≡ some file =
            rw there at e in
          cc
      | inr missing ↦ let e' : none ≡ some file = rw missing at e in cc
    ]

-- The bit of `S_IROTH` in a mode.
abbrev pub others_read : ℕ → ℕ
others_read mode = mode / 4 % 2

bit_and-zero : (k a : ℕ) → a ≤ k → bit_and a 0 ≡ 0
bit_and-zero zero a h = let none_left : a ≡ 0 = omega arith in rw none_left
bit_and-zero (suc k) a h = omega (arith, bit_and_digit a 0, bit_and-zero k (a / 2) (omega arith))

bit_and-s_iroth : (mode : ℕ) → bit_and mode s_iroth ≡ others_read mode * 4
bit_and-s_iroth mode = omega (
  arith,
  bit_and_digit mode 4,
  bit_and_digit (mode / 2) 2,
  bit_and_digit (mode / 2 / 2) 1,
  bit_and-zero (mode / 2 / 2 / 2) (mode / 2 / 2 / 2) (omega arith),
)

unreadable : (mode : ℕ) → not (bit_and mode s_iroth == 0) ≡ false → others_read mode ≡ 0
unreadable mode h = ground (arith, bit_and-s_iroth mode)

readable : (mode : ℕ) → not (bit_and mode s_iroth == 0) ≡ true → others_read mode ≡ 1
readable mode h = ground (arith, bit_and-s_iroth mode)

-- What the file at a path of the system is answered with.
abbrev pub AnswersPath : FileSystem → Text → HttpResponse → Type 0
AnswersPath system path response =
    ((system.exists path ≡ false) × (response ≡ not_found_response))
    ⊎ ((system.exists path ≡ true)
        × (((others_read (system.st_mode path) ≡ 0) × (response ≡ forbidden_response))
            ⊎ ((others_read (system.st_mode path) ≡ 1)
                × (response.status ≡ ok_status)
                × (response.body ≡ system.bytes path))))

Answers-AnswersPath :
    (system : FileSystem) (path : Text) (response : HttpResponse)
    → Answers (find_path system path) response
    → AnswersPath system path response
Answers-AnswersPath system path response h = elim (Bool-cases (system.exists path)) [
  | inl there ↦
      let h' : Answers (some (path_file system path)) response = rw there at h in
      let mode = system.st_mode path in
      elim h' [
        | inl (hidden, e) ↦ inr (there, inl (unreadable mode hidden, e))
        | inr (shown, good, body, _) ↦ inr (there, inr (readable mode shown, good, body))
      ]
  | inr missing ↦ inl (missing, rw missing at h)
]

-- The file handler over a directory of the system answers every request whose path is not refused, for
-- the file of that path below the directory, "/" standing for "/index.html": with "not found" if there
-- is none, with "forbidden" if its mode does not let others read it, and otherwise with its bytes.
pub serve_file-AnswersPath :
    (format_date : ℕ → Text) (system : FileSystem) (directory_path path : Text)
    (request : HttpRequest)
    → canonicalize_path request.uri ≡ ok path
    → path ≢ []
    → (response : HttpResponse) × (serve_file format_date
          (directory_get_file (find_path system) directory_path)
          request
        ≡ ok response)
      × AnswersPath system (directory_path ++ (codes "/" ++ index_path path)) response
unfolding directory_get_file
serve_file-AnswersPath format_date system directory_path path request e full =
    let (response, run, shape) =
      serve_file-Answers format_date (directory_get_file (find_path system) directory_path)
        request in
    elim shape [
      | inl (refused, _) ↦ let none_there : path ≡ [] = cc in absurd (full none_there)
      | inr (path', e', _, right) ↦
          let same : path' ≡ path = cc in
          (response, run, Answers-AnswersPath system _ response (rw same at right))
    ]
