-- ===== src/Http.antt =====
-- http.h and http.cpp: requests, responses, their serialisation and the request parser.
-- An address is its 32-bit value in host order (see Htaccess).
-- A time is a number of seconds.
pub mod Parse
pub mod Equality
pub mod Printing
pub mod FrameEnd
pub mod RoundTrip
pub mod Termination
use cse124_httpserver.Base.{
  ℕ, ◌-◌, Bool, true, false, not, ◌&&◌, ◌||◌, pos, List, [], ◌∷◌, ◌++◌, length, take, ltb, ◌==◌,
  if◌then◌else◌, Text, codes, text_eq, Result, ok, throw, ◌>>=◌, ◌>>◌, check,
  http_request_parse_error,
}
use cse124_httpserver.Util.{split, split_n, join, to_lowercase, ends_with, substr}
use cse124_httpserver.Util.Decimal.{to_string}

abbrev pub http_version_1_1 : Text
http_version_1_1 = codes "HTTP/1.1"

abbrev pub crlf : Text
crlf = 13 ∷ 10 ∷ []

pub record HttpFrame : Type 0 where
  pub contents : Text

abbrev pub serialize : HttpFrame → Text
serialize frame = frame.contents

pub record HttpHeader : Type 0 where
  pub key : Text
  pub value : Text

pub record HttpRequest : Type 0 where
  pub method : Text
  pub uri : Text
  pub version : Text
  pub headers : List HttpHeader
  pub body : Text
  pub remote_ip : ℕ

pub record HttpStatus : Type 0 where
  pub status_code : ℕ
  pub name : Text

pub record HttpResponse : Type 0 where
  pub version : Text
  pub status : HttpStatus
  pub headers : List HttpHeader
  pub body : Text

unfoldable pub has_header : List HttpHeader → Text → Bool
has_header [] key = false
has_header (h ∷ headers) key =
    if text_eq (to_lowercase h.key) (to_lowercase key) then true else has_header headers key

unfoldable pub get_header : List HttpHeader → Text → HttpHeader
get_header [] key = record { key = []; value = [] }
get_header (h ∷ headers) key =
    if text_eq (to_lowercase h.key) (to_lowercase key) then h else get_header headers key

-- The header lines that `HttpRequest::pack` writes.
pub pack_headers : List HttpHeader → Text
pack_headers [] = []
pack_headers (h ∷ headers) = h.key ++ (codes ":" ++ (h.value ++ (crlf ++ pack_headers headers)))

unfoldable pub pack_request : HttpRequest → HttpFrame
unfolding pack_headers
pack_request r = record {
  contents =
      r.method
      ++ (codes " "
          ++ (r.uri
              ++ (codes " "
                  ++ (r.version ++ (crlf ++ (pack_headers r.headers ++ (crlf ++ r.body)))))));
}

-- The header lines that `HttpResponse::pack` writes: a space follows the colon.
pub pack_response_headers : List HttpHeader → Text
pack_response_headers [] = []
pack_response_headers (h ∷ headers) =
    h.key ++ (codes ": " ++ (h.value ++ (crlf ++ pack_response_headers headers)))

unfoldable pub pack_response : HttpResponse → HttpFrame
unfolding pack_response_headers to_string
pack_response r = record {
  contents =
      r.version
      ++ (codes " "
          ++ (to_string r.status.status_code
              ++ (codes " "
                  ++ (r.status.name
                      ++ (crlf ++ (pack_response_headers r.headers ++ (crlf ++ r.body)))))));
}

abbrev pub ok_status : HttpStatus
ok_status = record { status_code = 200; name = codes "OK" }

abbrev pub bad_request_status : HttpStatus
bad_request_status = record { status_code = 400; name = codes "Bad Request" }

abbrev pub forbidden_status : HttpStatus
forbidden_status = record { status_code = 403; name = codes "Forbidden" }

abbrev pub not_found_status : HttpStatus
not_found_status = record { status_code = 404; name = codes "Not Found" }

abbrev pub internal_server_error_status : HttpStatus
internal_server_error_status = record { status_code = 500; name = codes "Internal Server Error" }

abbrev pub server_header : HttpHeader
server_header = record { key = codes "Server"; value = codes "TritonHTTP/0.1" }

abbrev pub empty_content_length : HttpHeader
empty_content_length = record { key = codes "Content-Length"; value = codes "0" }

abbrev pub error_response : HttpStatus → HttpResponse
error_response status = record {
  version = http_version_1_1;
  status = status;
  headers = server_header ∷ empty_content_length ∷ [];
  body = [];
}

abbrev pub bad_request_response : HttpResponse
bad_request_response = error_response bad_request_status

abbrev pub forbidden_response : HttpResponse
forbidden_response = error_response forbidden_status

abbrev pub not_found_response : HttpResponse
not_found_response = error_response not_found_status

abbrev pub internal_server_error_response : HttpResponse
internal_server_error_response = error_response internal_server_error_status

unfoldable pub infer_content_type : Text → Result Text
unfolding ends_with
infer_content_type filename = do
  html ← ends_with filename (codes ".html")
  if html then ok (codes "text/html") else (do
    jpg ← ends_with filename (codes ".jpg")
    if jpg then ok (codes "image/jpeg") else (do
      png ← ends_with filename (codes ".png")
      if png then ok (codes "image/png") else ok (codes "text/plain")))

-- util.cpp. `format_date` is `gmtime_r` and `strftime` with the server's format.
unfoldable pub to_http_date : (ℕ → Text) → ℕ → Result Text
unfolding ends_with
to_http_date format_date tp = do
  let s = format_date tp
  utc ← ends_with s (codes "UTC")
  ok (if utc then take (length s - 3) s ++ codes "GMT" else s)

unfoldable pub ok_response : (ℕ → Text) → Text → Text → ℕ → Result HttpResponse
unfolding to_http_date to_string
ok_response format_date body content_type last_modified = do
  date ← to_http_date format_date last_modified
  ok (record {
    version = http_version_1_1;
    status = ok_status;
    headers =
        server_header
        ∷ record { key = codes "Content-Length"; value = to_string (length body) }
        ∷ record { key = codes "Content-Type"; value = content_type }
        ∷ record { key = codes "Last-Modified"; value = date }
        ∷ [];
    body = body;
  })

-- The header of one line, if the line has two parts.
abbrev pub header_of : List Text → Result HttpHeader
header_of (key ∷ value ∷ []) = ok (record { key = key; value = value })
header_of _ = throw http_request_parse_error

unfoldable pub parse_headers : List Text → Result (List HttpHeader)
unfolding split_n
parse_headers [] = ok []
parse_headers (line ∷ lines) = do
  parts ← split_n line (codes ":") (pos 1)
  header ← header_of parts
  rest ← parse_headers lines
  ok (header ∷ rest)

-- `uri == "" || uri[0] != '/'`
abbrev pub is_rooted : Text → Bool
is_rooted [] = false
is_rooted (c ∷ uri) = c == b'/'

-- What `parse_request_frame` does with the three parts of the initial line.
unfoldable pub parse_parts : List Text → List Text → Result HttpRequest
unfolding parse_headers substr
parse_parts (method ∷ uri ∷ version ∷ []) header_lines = do
  check (is_rooted uri) http_request_parse_error
  prefix ← substr version 0 5
  check (text_eq prefix (codes "HTTP/") && not (ltb (length version) 8)) http_request_parse_error
  headers ← parse_headers header_lines
  ok (record {
    method = method;
    uri = uri;
    version = version;
    headers = headers;
    body = [];
    remote_ip = 0;
  })
parse_parts _ header_lines = throw http_request_parse_error

unfoldable pub parse_lines : List Text → Result HttpRequest
unfolding parse_parts split_n
parse_lines [] = throw http_request_parse_error
parse_lines (initial_line ∷ header_lines) = do
  parts ← split_n initial_line (codes " ") (pos 2)
  parse_parts parts header_lines

unfoldable pub parse_request_frame : HttpFrame → Result HttpRequest
unfolding parse_lines split
parse_request_frame frame = do frame_lines ← split frame.contents crlf; parse_lines frame_lines
