-- ===== src/Tests/AsyncServer.antt =====
-- A connection of the asynchronous server, on examples.
mod Running
use cse124_httpserver.Base.{
  ◌≡◌, refl, arith, true, false, none, find_first, some, List, [], ◌∷◌, ◌++◌, length, Text, codes,
  text_eq, find, ok,
}
use cse124_httpserver.Util.{pop_n_sstream, canonicalize_path, to_lowercase}
use cse124_httpserver.Http.{
  HttpRequest, HttpResponse, serialize, pack_response, not_found_response, has_header, get_header,
  parse_request_frame,
}
use cse124_httpserver.Handlers.{
  allow_request, allow_by_file, serve_file, respond_with, site_handler,
  htaccess_path_from_file_path,
}
use cse124_httpserver.Connection.{Connection, bytes, crlfcrlf, handle_connection, says_close}
use cse124_httpserver.Connection.Chunks.{chunks}
use cse124_httpserver.AsyncConnection.{sent, WritePollable, try_write}
use cse124_httpserver.AsyncConnection.Reading.{notify_read, read_until_async}
use cse124_httpserver.AsyncHandlers.{Task, site_handler_async}
use cse124_httpserver.AsyncServer.{
  AsyncHttpConnection, request_read, response_write, handle_http_connection, notify_request_read,
  notify_response_write,
}
use cse124_httpserver.AsyncServer.Steps.{fresh, Reach, accepts, reads, writes}
use cse124_httpserver.Connection.Frames.{Exchanges, IsFrame}
use cse124_httpserver.AsyncServer.Progress.{Replied}
use cse124_httpserver.AsyncServer.Site.{
  site-handle_connection_prefix, site-handle_connection, site-Replied,
}
use cse124_httpserver.Tests.Handlers.{dated, site}
use cse124_httpserver.Tests.AsyncHandlers.{site_contents, site_holds}
use cse124_httpserver.Tests.Htaccess.{knows_ten, finds_none}

abbrev pub handler : HttpRequest → Task HttpResponse
handler = site_handler_async knows_ten finds_none dated site

-- A request for a page that is not there.
abbrev first_frame : Text
first_frame = codes "GET /x HTTP/1.1" ++ (13 ∷ 10 ∷ codes "Host:a")

-- The request, and the start of another one.
abbrev pub asks : Text
asks = first_frame ++ (13 ∷ 10 ∷ 13 ∷ 10 ∷ codes "GET")

abbrev pub asked : HttpRequest
asked = record {
  method = codes "GET";
  uri = codes "/x";
  version = codes "HTTP/1.1";
  headers = record { key = codes "Host"; value = codes "a" } ∷ [];
  body = [];
  remote_ip = 7;
}

abbrev pub writes_missing : WritePollable
writes_missing = record {
  message = serialize (pack_response not_found_response);
  total_sent = 0;
  done = false;
  started = 1;
  wire = [];
}

abbrev pub after_request : AsyncHttpConnection
after_request = record (fresh 7) { buffer = codes "GET" }

accepts_one : handle_http_connection handler 0 (fresh 7) ≡ (ok (some (request_read 0)), fresh 7)
unfolding handle_http_connection text_eq read_until_async find
accepts_one = refl

reads_one :
    notify_request_read handler 1 0 (bytes asks) (fresh 7)
    ≡ (ok (response_write writes_missing (some asked) ∷ []), after_request)
unfolding notify_request_read notify_read site_handler_async text_eq pop_n_sstream
    parse_request_frame has_header to_lowercase canonicalize_path htaccess_path_from_file_path
reads_one = refl

abbrev pub after_response : AsyncHttpConnection
after_response = record after_request { wire = writes_missing.message }

writes_one :
    notify_response_write handler 2 writes_missing
      (some asked)
      (sent (length writes_missing.message) ∷ [])
      after_request
    ≡ (ok (request_read 2 ∷ []), after_response)
unfolding notify_response_write try_write says_close text_eq pack_response find get_header
    to_lowercase read_until_async
writes_one = refl

after_reading :
    Reach handler site_contents 7
      (response_write writes_missing (some asked) ∷ [])
      after_request
      asks
after_reading =
    reads 1 0 (bytes asks) (response_write writes_missing (some asked) ∷ [])
      (accepts 0 (some (request_read 0)) accepts_one) (λ e. cc) reads_one

waiting : Reach handler site_contents 7 (request_read 2 ∷ []) after_response asks
unfolding pack_response
waiting =
    writes 2 writes_missing (some asked) (sent (length writes_missing.message) ∷ [])
      (request_read 2 ∷ []) after_reading (omega arith, tt) ((λ e. cc), tt) writes_one

-- The same text, to the blocking server, in two chunks.
abbrev pub halves : List Text
halves =
    codes "GET /x HT"
    ∷ (codes "TP/1.1" ++ (13 ∷ 10 ∷ codes "Host:a") ++ (13 ∷ 10 ∷ 13 ∷ 10 ∷ codes "GET"))
    ∷ []

abbrev pub blocking_connection : Connection
blocking_connection = record {
  reads = chunks halves;
  buffer = [];
  sends = [];
  written = [];
  peer = 7;
}

-- The first request, and the reply to it.
abbrev first_exchange : Exchanges
first_exchange = (first_frame, not_found_response) ∷ []

first_frame-IsFrame : IsFrame (first_frame)
unfolding find_first
first_frame-IsFrame = refl

frame_parses :
    parse_request_frame (record { contents = first_frame }) ≡ ok (record asked { remote_ip = 0 })
unfolding parse_request_frame text_eq
frame_parses = refl

host_there : has_header asked.headers (codes "Host") ≡ true
unfolding has_header to_lowercase text_eq
host_there = refl

stays : says_close (record asked { remote_ip = 0 }) ≡ false
unfolding says_close get_header to_lowercase find text_eq
stays = refl

missing_there : site_handler knows_ten finds_none dated site asked ≡ ok not_found_response
unfolding site_handler text_eq canonicalize_path allow_request htaccess_path_from_file_path
    allow_by_file serve_file respond_with
missing_there = refl

nothing_more : find_first crlfcrlf (codes "GET") ≡ none
unfolding find_first
nothing_more = refl

site-Replied_example : Replied handler site_contents 7 5 [] first_exchange (codes "GET") asks
site-Replied_example =
    site-Replied knows_ten finds_none dated site site_contents site_holds 7 (fresh 7) [] 5 0 asks
      first_exchange (codes "GET") (accepts 0 (some (request_read 0)) accepts_one) (λ e. cc)
      (omega arith) refl
      (
        (
          record asked { remote_ip = 0 },
          first_frame-IsFrame,
          frame_parses,
          host_there,
          missing_there,
          stays,
        ),
        tt,
      )
      nothing_more
