-- ===== src/AsyncServer/Served.antt =====
-- The connections of the asynchronous server as the pollables of its event loop, with the listener:
-- `AsyncHttpServer::serve`. A connection has one pollable in the loop at most, which here carries
-- what its callbacks share. What the kernel answers is data, and may differ in each turn.
use cse124_httpserver.Base.{
  ℕ, ◌-◌, ◌≡◌, ◌≢◌, All, length, Bool, false, Option, none, some, List, [], ◌∷◌, ◌++◌, ltb,
  if◌then◌else◌, Text, Result, ok, throw, undefined, no_fuel,
}
use cse124_httpserver.Http.{HttpRequest, HttpResponse}
use cse124_httpserver.Connection.{Recv, would_block, crlfcrlf}
use cse124_httpserver.Connection.Accepting.{Accept}
use cse124_httpserver.EventLoop.{Notified, returned, thrown, Pollable, Polled, turn}
use cse124_httpserver.Listener.{SocketConnection, Registered, listening, serving, registered}
use cse124_httpserver.AsyncConnection.{
  default_timeout, Send, send_fails, WritePollable, write_past_deadline, try_write,
}
use cse124_httpserver.AsyncConnection.Reading.{notify_read}
use cse124_httpserver.AsyncFiles.{FileRead, FileReadPollable, file_past_deadline, notify_file}
use cse124_httpserver.AsyncHandlers.{Task}
use cse124_httpserver.AsyncServer.{
  AsyncHttpConnection, Pending, request_read, file_read, response_write, run_task, continue_with,
  handle_http_connection, on_written,
}
use cse124_httpserver.AsyncServer.Steps.{text_of, IsReadOf, fresh}
use cse124_httpserver.AsyncConnection.Writing.{AcceptedBy}

-- What the calls of one notification give: `recv`, `read` or `send`, and the time it makes a new
-- pollable at.
pub record Kernel : Type 0 where
  pub now : ℕ
  pub received : Recv
  pub read : FileRead
  pub sends : List Send

-- A pollable, its connection, and the text that the connection's socket has brought.
pub record Served : Type 0 where
  pub pending : Pending
  pub done : Bool
  pub conn : AsyncHttpConnection
  pub peer : ℕ
  pub input : Text

-- `broken` is left where a notification does something undefined, or a handler runs out of fuel.
pub data InLoop : Type 0 where
  at : Served → InLoop
  broken : InLoop

abbrev pub pending_past_deadline : Pending → ℕ → Bool
pending_past_deadline (request_read started) now = ltb default_timeout (now - started)
pending_past_deadline (file_read p k request) now = file_past_deadline p now
pending_past_deadline (response_write w callback) now = write_past_deadline w now

abbrev pub served_is_done : InLoop → Bool
served_is_done (at s) = s.done
served_is_done broken = false

abbrev pub served_past_deadline : InLoop → ℕ → Bool
served_past_deadline (at s) now = pending_past_deadline s.pending now
served_past_deadline broken now = false

-- How `notify` ends when its callback does: the pollable after it, and what it returns.
abbrev pub ends : Served → Result (Option Pending) → InLoop × Notified InLoop
ends s (ok none) = (at s, returned none)
ends s (ok (some p)) = (at s, returned (some (at (record s { pending = p; done = false }))))
ends s (throw e) = (at s, thrown)
ends s undefined = (broken, returned none)
ends s no_fuel = (broken, returned none)

-- `notify` of a file's pollable, of which the callback is called if there is a text.
abbrev pub ends_read :
    ℕ
    → (Text → Task HttpResponse)
    → HttpRequest
    → Served
    → Result (FileReadPollable × Option Text)
    → InLoop × Notified InLoop
ends_read now k request s (ok (p, none)) =
    (at (record s { pending = file_read p k request; done = p.done }), returned none)
ends_read now k request s (ok (p, some text)) =
    ends (record s { pending = file_read p k request; done = p.done })
      (run_task now s.conn request (k text))
ends_read now k request s (throw e) = (at s, thrown)
ends_read now k request s undefined = (broken, returned none)
ends_read now k request s no_fuel = (broken, returned none)

-- What the kernel answers at a pollable: `poll` reports a socket that has something to read, the end
-- of a file is reported when its contents have been read, and `send` takes at most what it is given
-- and does not fail.
abbrev pub IsLawful : (Text → Text) → Pending → Kernel → Type 0
IsLawful contents (request_read started) kernel = kernel.received ≢ would_block
IsLawful contents (file_read p k request) kernel = IsReadOf (contents p.file_path) p kernel.read
IsLawful contents (response_write w callback) kernel =
    AcceptedBy (length w.message - w.total_sent) kernel.sends
    × All (λ s. s ≢ send_fails) kernel.sends

abbrev pub IsDefined : Registered InLoop → Type 0
IsDefined (serving broken) = ⊥
IsDefined _ = Unit

module _ (handler : HttpRequest → Task HttpResponse) where
  -- `notify` of a response's pollable, of which the callback is called if the write is done.
  abbrev pub ends_write :
      ℕ → Option HttpRequest → Served → Bool × WritePollable → InLoop × Notified InLoop
  ends_write now callback s (done, w) =
      let w' = record w { done = done } in
      let conn' = record (s.conn) { wire = w.wire } in
      let written = on_written handler now conn' callback in
      let s' = record s { pending = response_write w' callback; done = done } in
      if done
      then ends (record s' { conn = written.1 }) written.0
      else (at (record s' { conn = conn' }), returned none)

  -- `notify` of each of the pollables.
  abbrev pub notify_pending : Kernel → Served → Pending → InLoop × Notified InLoop
  notify_pending kernel s (request_read started) =
      let (done, step) = notify_read crlfcrlf s.conn.buffer kernel.received in
      let (next, conn') = continue_with handler kernel.now s.conn step in
      ends
        (record s {
          pending = request_read started;
          done = done;
          conn = conn';
          input = s.input ++ text_of kernel.received;
        })
        next
  notify_pending kernel s (file_read p k request) =
      ends_read kernel.now k request s (notify_file kernel.read p)
  notify_pending kernel s (response_write w callback) =
      ends_write kernel.now callback s (try_write kernel.sends (record w { wire = s.conn.wire }))

  unfoldable pub notify_served : (Served → Kernel) → InLoop → ℕ → InLoop × Notified InLoop
  unfolding on_written notify_file notify_read
  notify_served kernel (at s) revents = notify_pending (kernel s) s s.pending
  notify_served kernel broken revents = (broken, returned none)

  unfoldable pub served : (Served → Kernel) → Pollable InLoop
  unfolding notify_served
  served kernel = record {
    is_done = served_is_done;
    past_deadline = served_past_deadline;
    notify = notify_served kernel;
  }

  -- The callback of the listener in `AsyncHttpServer::serve`.
  abbrev pub handles : ℕ → Result (Option Pending) × AsyncHttpConnection → Option InLoop
  handles peer (ok none, conn) = none
  handles peer (ok (some p), conn) =
      some (at (record { pending = p; done = false; conn = conn; peer = peer; input = [] }))
  handles peer (throw e, conn) = none
  handles peer (undefined, conn) = some broken
  handles peer (no_fuel, conn) = some broken

  unfoldable pub on_accepted : ℕ → SocketConnection → Option InLoop
  unfolding handle_http_connection
  on_accepted now socket =
      handles socket.client_remote_ip
        (handle_http_connection handler now (fresh socket.client_remote_ip))

  -- The pollables of the server's loop in a turn.
  abbrev pub server_pollables : (Served → Kernel) → ℕ → Pollable (Registered InLoop)
  server_pollables kernel now = registered (served kernel) (on_accepted now)

  -- The loop's pollables, from the listener that `serve` registers, turn by turn, as long as nothing
  -- undefined happens.
  pub data Runs (contents : Text → Text) : List (Registered InLoop) → Type 0 where
    starts : (accepts : List (Accept (ℕ × ℕ))) → Runs contents (listening accepts ∷ [])
    turns :
        (kernel : Served → Kernel) (made now : ℕ) (polled : Polled)
        (cur next : List (Registered InLoop))
        → Runs contents cur
        → ((s : Served) → IsLawful contents s.pending (kernel s))
        → turn (server_pollables kernel made) polled now cur ≡ ok next
        → All IsDefined next
        → Runs contents next
