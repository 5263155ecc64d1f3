-- ===== src/Tests/AsyncServer/Running.antt =====
-- The asynchronous server's loop with two connections, of which one sends a request.
use cse124_httpserver.Base.{
  ◌-◌, ◌≡◌, refl, arith, min, false, some, List, [], ◌∷◌, ◌++◌, length, Text, codes, text_eq, find,
  ok,
}
use cse124_httpserver.Handlers.{htaccess_path_from_file_path, directory_get_file}
use cse124_httpserver.Util.{pop_n_sstream, canonicalize_path, to_lowercase}
use cse124_httpserver.Http.{pack_response, has_header, get_header, parse_request_frame}
use cse124_httpserver.Connection.{bytes, handle_connection, says_close}
use cse124_httpserver.Connection.Accepting.{accepted}
use cse124_httpserver.EventLoop.{ready, turn}
use cse124_httpserver.Listener.{listening, serving, registered}
use cse124_httpserver.AsyncConnection.{bufsize, Send, sent, try_write}
use cse124_httpserver.AsyncConnection.Reading.{read_until_async}
use cse124_httpserver.AsyncFiles.{read_blocks}
use cse124_httpserver.AsyncHandlers.{Task, site_handler_async}
use cse124_httpserver.AsyncServer.{Pending, request_read, file_read, response_write}
use cse124_httpserver.AsyncServer.Steps.{fresh}
use cse124_httpserver.AsyncServer.Served.{
  Kernel, Served, at, IsLawful, server_pollables, on_accepted, served, Runs, starts, turns,
}
use cse124_httpserver.AsyncServer.Running.{Runs-handle_connection_prefix, Runs-handle_connection}
use cse124_httpserver.Tests.AsyncServer.{
  asks, asked, writes_missing, after_request, after_response, halves, blocking_connection,
}
use cse124_httpserver.Http.{HttpRequest, HttpResponse}
use cse124_httpserver.Handlers.Files.{FileSystem, bytes_below}
use cse124_httpserver.Launch.Site.{request_handler, request_handler_async}
use cse124_httpserver.Tests.Handlers.{dated}
use cse124_httpserver.Tests.Dns.{finds_two}
use cse124_httpserver.Tests.Htaccess.{knows_ten}

-- A system without files.
abbrev no_files : FileSystem
no_files = record {
  exists = λ path. false;
  st_mode = λ path. 0;
  st_mtime = λ path. 0;
  bytes = λ path. [];
}

abbrev handler : HttpRequest → Task HttpResponse
handler = request_handler_async knows_ten finds_two dated no_files (codes "/www")

-- A kernel that brings the request, and takes what a buffer holds.
abbrev taking : Pending → List Send
taking (response_write w callback) = sent (min (length w.message - w.total_sent) bufsize) ∷ []
taking p = []

abbrev kernel : Served → Kernel
kernel s = record { now = 1; received = bytes asks; read = read_blocks; sends = taking s.pending }

lawful : (s : Served) → IsLawful (bytes_below no_files (codes "/www")) s.pending (kernel s)
lawful s = go s.pending
  where
    go :
        (p : Pending)
        → IsLawful
            (bytes_below no_files (codes "/www"))
            p
            (record { now = 1; received = bytes asks; read = read_blocks; sends = taking p })
    go (request_read started) = λ e. cc
    go (file_read p k request) = tt
    go (response_write w callback) = ((omega arith, tt), ((λ e. cc), tt))

abbrev accepted_at : Served
accepted_at = record {
  pending = request_read 1;
  done = false;
  conn = fresh 7;
  peer = 7;
  input = [];
}

abbrev other : Served
other = record accepted_at { peer = 8; conn = fresh 8 }

abbrev writing : Served
writing = record accepted_at {
  pending = response_write writes_missing (some asked);
  conn = after_request;
  input = asks;
}

abbrev waiting : Served
waiting = record writing { pending = request_read 1; conn = after_response }

accepts_first :
    turn
      (server_pollables handler kernel 1)
      (ready (1 ∷ []))
      1
      (listening (accepted (5, 7) ∷ accepted (6, 8) ∷ []) ∷ [])
    ≡ ok (listening (accepted (6, 8) ∷ []) ∷ serving (at accepted_at) ∷ [])
unfolding turn registered on_accepted read_until_async find
accepts_first = refl

reads_first :
    turn
      (server_pollables handler kernel 1)
      (ready (1 ∷ 1 ∷ []))
      1
      (listening (accepted (6, 8) ∷ []) ∷ serving (at accepted_at) ∷ [])
    ≡ ok (listening [] ∷ serving (at other) ∷ serving (at writing) ∷ [])
unfolding turn registered served directory_get_file find pop_n_sstream parse_request_frame text_eq
    has_header to_lowercase site_handler_async canonicalize_path htaccess_path_from_file_path
    on_accepted read_until_async
reads_first = refl

writes_first :
    turn
      (server_pollables handler kernel 1)
      (ready (0 ∷ 0 ∷ 1 ∷ []))
      1
      (listening [] ∷ serving (at other) ∷ serving (at writing) ∷ [])
    ≡ ok (listening [] ∷ serving (at other) ∷ serving (at waiting) ∷ [])
unfolding turn registered served try_write pack_response says_close find get_header text_eq
    to_lowercase read_until_async
writes_first = refl

after_two :
    Runs handler
      (bytes_below no_files (codes "/www"))
      (listening [] ∷ serving (at other) ∷ serving (at writing) ∷ [])
after_two =
    turns kernel 1 1 (ready (1 ∷ 1 ∷ [])) _ _
      (turns kernel 1 1 (ready (1 ∷ [])) _ _ (starts (accepted (5, 7) ∷ accepted (6, 8) ∷ []))
        lawful accepts_first (tt, (tt, tt)))
      lawful reads_first (tt, (tt, (tt, tt)))

after_three :
    Runs handler
      (bytes_below no_files (codes "/www"))
      (listening [] ∷ serving (at other) ∷ serving (at waiting) ∷ [])
after_three =
    turns kernel 1 1 (ready (0 ∷ 0 ∷ 1 ∷ [])) _ _ after_two lawful writes_first (tt, (tt, (tt, tt)))

Runs-handle_connection_prefix_example :
    (more : Text) × ((handle_connection
        (request_handler knows_ten finds_two dated no_files (codes "/www"))
        40
        blocking_connection).1.written
      ≡ blocking_connection.written ++ (writing.conn.wire ++ more))
Runs-handle_connection_prefix_example =
    Runs-handle_connection_prefix knows_ten finds_two dated no_files (codes "/www")
      (listening [] ∷ serving (at other) ∷ []) [] writing after_two [] blocking_connection halves 40
      (omega arith) (refl, ((λ e. cc), ((λ e. cc), tt))) refl refl refl

Runs-handle_connection_example :
    handle_connection
      (request_handler knows_ten finds_two dated no_files (codes "/www"))
      40
      blocking_connection
    ≡ (
      ok tt,
      record blocking_connection {
        reads = [];
        buffer = codes "GET";
        written = writes_missing.message;
      },
    )
Runs-handle_connection_example =
    Runs-handle_connection knows_ten finds_two dated no_files (codes "/www")
      (listening [] ∷ serving (at other) ∷ []) [] waiting after_three 1 blocking_connection halves
      40 refl (omega arith) (refl, ((λ e. cc), ((λ e. cc), tt))) refl refl refl
