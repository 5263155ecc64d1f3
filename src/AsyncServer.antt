-- ===== src/AsyncServer.antt =====
-- async_http_connection.cpp and async_http_server.cpp: a connection of the asynchronous server. Each
-- callback is a constructor or a function of what it captured. `now` is the time at which a pollable
-- is made. A function that returns a pollable or null returns an Option of it.
pub mod Steps
pub mod Exchanges
pub mod Invariant
pub mod Callbacks
pub mod Events
pub mod Writes
pub mod Soundness
pub mod Equivalence
pub mod Answering
pub mod Progress
pub mod InLoop
pub mod Site
pub mod Served
pub mod Isolation
pub mod Running
use cse124_httpserver.Base.{
  ℕ, Bool, true, false, Option, none, some, List, [], ◌∷◌, if◌then◌else◌, Text, codes, Result, ok,
  throw, undefined, no_fuel, http_request_parse_error, connection_closed, ◌>>=◌,
}
use cse124_httpserver.Http.{
  HttpFrame, HttpRequest, HttpResponse, serialize, pack_response, parse_request_frame, has_header,
  bad_request_response, internal_server_error_response,
}
use cse124_httpserver.Connection.{Recv, crlfcrlf, says_close}
use cse124_httpserver.AsyncConnection.{Send, WritePollable, try_write}
use cse124_httpserver.AsyncConnection.Reading.{
  Step, content, read_again, gave_up, notify_read, read_until_async,
}
use cse124_httpserver.AsyncFiles.{FileRead, FileReadPollable, read_contents, notify_file}
use cse124_httpserver.AsyncHandlers.{Task, returns, throws, faults, starves, reads_file}

-- What the pollables of a connection share: the buffer of AsyncBufferedConnection, what the socket
-- took, and the peer's address.
pub record AsyncHttpConnection : Type 0 where
  pub buffer : Text
  pub wire : Text
  pub remote_ip : ℕ

-- The pollables of a connection, with their callbacks:
-- * a read of the socket, with the callback of `read_request`;
-- * a read of a file, with the rest of the handler's task, for a request;
-- * a write of a response, with the callback for a request, or with `Callback<>::empty()`.
pub data Pending : Type 0 where
  request_read : ℕ → Pending
  file_read : FileReadPollable → (Text → Task HttpResponse) → HttpRequest → Pending
  response_write : WritePollable → Option HttpRequest → Pending

-- `AsyncHttpConnection::write_response`
abbrev pub write_response_async :
    ℕ → AsyncHttpConnection → HttpResponse → Option HttpRequest → Pending
write_response_async now conn response callback =
    response_write
      (record {
        message = serialize (pack_response response);
        total_sent = 0;
        done = false;
        started = now;
        wire = conn.wire;
      })
      callback

-- What the handler's task comes to: the callback of the response, a pollable, or an exception.
abbrev pub run_task :
    ℕ → AsyncHttpConnection → HttpRequest → Task HttpResponse → Result (Option Pending)
run_task now conn request (returns response) =
    ok (some (write_response_async now conn response (some request)))
run_task now conn request (throws e) = throw e
run_task now conn request faults = undefined
run_task now conn request starves = no_fuel
run_task now conn request (reads_file path k) =
    ok (some (file_read (read_contents path now) k request))

-- The `catch` clauses of the callback in `read_request`.
abbrev pub catch_request :
    ℕ → AsyncHttpConnection → Result (Option Pending) → Result (Option Pending)
catch_request now conn (throw http_request_parse_error) =
    ok (some (write_response_async now conn bad_request_response none))
catch_request now conn (throw connection_closed) = ok none
catch_request now conn (throw e) =
    ok (some (write_response_async now conn internal_server_error_response none))
catch_request now conn r = r

module _ (handler : HttpRequest → Task HttpResponse) where
  -- The callback of the request in `handle_http_connection`.
  unfoldable pub on_request : ℕ → AsyncHttpConnection → HttpRequest → Result (Option Pending)
  on_request now conn request =
      if has_header request.headers (codes "Host")
      then run_task now conn request (handler request)
      else ok (some (write_response_async now conn bad_request_response none))

  -- The callback of the content in `read_request`.
  unfoldable pub on_content : ℕ → AsyncHttpConnection → Text → Result (Option Pending)
  unfolding on_request
  on_content now conn text = catch_request now conn (do
    request ← parse_request_frame (record { contents = text })
    on_request now conn (record request { remote_ip = conn.remote_ip }))

  -- What `read_until` or its callback does with the connection's buffer.
  abbrev pub after_step : ℕ → AsyncHttpConnection → Step → Result (Option Pending)
  after_step now conn (content text) = on_content now conn text
  after_step now conn read_again = ok (some (request_read now))
  after_step now conn gave_up = ok none

  abbrev pub with_buffer :
      ℕ → AsyncHttpConnection → Step × Text → Result (Option Pending) × AsyncHttpConnection
  with_buffer now conn (step, buffer) =
      let conn' = record conn { buffer = buffer } in (after_step now conn' step, conn')

  abbrev pub continue_with :
      ℕ → AsyncHttpConnection → Result (Step × Text) → Result (Option Pending) × AsyncHttpConnection
  continue_with now conn (ok s) = with_buffer now conn s
  continue_with now conn (throw e) = (throw e, conn)
  continue_with now conn undefined = (undefined, conn)
  continue_with now conn no_fuel = (no_fuel, conn)

  -- `handle_http_connection`, which calls `read_request`.
  unfoldable pub handle_http_connection :
      ℕ → AsyncHttpConnection → Result (Option Pending) × AsyncHttpConnection
  unfolding on_content
  handle_http_connection now conn = continue_with now conn (read_until_async crlfcrlf conn.buffer)

  -- The callback of a written response.
  unfoldable pub on_written :
      ℕ → AsyncHttpConnection → Option HttpRequest → Result (Option Pending) × AsyncHttpConnection
  unfolding handle_http_connection
  on_written now conn none = (ok none, conn)
  on_written now conn (some request) =
      if says_close request then (ok none, conn) else handle_http_connection now conn

  -- What `process_pollable` leaves in the loop: the pollable if it is not done, and the one it
  -- returned; nothing if it threw.
  abbrev pub leaves : Bool → Pending → Result (Option Pending) → Result (List Pending)
  leaves true p (ok none) = ok []
  leaves true p (ok (some q)) = ok (q ∷ [])
  leaves false p (ok none) = ok (p ∷ [])
  leaves false p (ok (some q)) = ok (p ∷ q ∷ [])
  leaves done p (throw e) = ok []
  leaves done p undefined = undefined
  leaves done p no_fuel = no_fuel

  -- A notified read of the socket.
  unfoldable pub notify_request_read :
      ℕ → ℕ → Recv → AsyncHttpConnection → Result (List Pending) × AsyncHttpConnection
  unfolding on_content
  notify_request_read now started received conn =
      let (done, step) = notify_read crlfcrlf conn.buffer received in
      let (next, conn') = continue_with now conn step in
      (leaves done (request_read started) next, conn')

  -- A notified read of a file: the callback is called with the whole text.
  abbrev pub after_file :
      ℕ
      → AsyncHttpConnection
      → (Text → Task HttpResponse)
      → HttpRequest
      → Result (FileReadPollable × Option Text)
      → Result (List Pending)
  after_file now conn k request (ok (p, none)) = ok (file_read p k request ∷ [])
  after_file now conn k request (ok (p, some text)) =
      leaves p.done (file_read p k request) (run_task now conn request (k text))
  after_file now conn k request (throw e) = ok []
  after_file now conn k request undefined = undefined
  after_file now conn k request no_fuel = no_fuel

  unfoldable pub notify_file_read :
      ℕ
      → FileReadPollable
      → (Text → Task HttpResponse)
      → HttpRequest
      → FileRead
      → AsyncHttpConnection
      → Result (List Pending) × AsyncHttpConnection
  notify_file_read now p k request r conn = (after_file now conn k request (notify_file r p), conn)

  -- A notified write.
  abbrev pub after_write :
      ℕ
      → Option HttpRequest
      → AsyncHttpConnection
      → Bool × WritePollable
      → Result (List Pending) × AsyncHttpConnection
  after_write now callback conn (done, w) =
      let w' = record w { done = done } in
      let conn' = record conn { wire = w.wire } in
      let written = on_written now conn' callback in
      if done
      then (leaves true (response_write w' callback) written.0, written.1)
      else (ok (response_write w' callback ∷ []), conn')

  unfoldable pub notify_response_write :
      ℕ
      → WritePollable
      → Option HttpRequest
      → List Send
      → AsyncHttpConnection
      → Result (List Pending) × AsyncHttpConnection
  unfolding on_written
  notify_response_write now w callback sends conn =
      after_write now callback conn (try_write sends (record w { wire = conn.wire }))
