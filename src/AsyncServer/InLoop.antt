-- ===== src/AsyncServer/InLoop.antt =====
-- A connection of the asynchronous server in the event loop: the pollable that the callback of
-- `AsyncHttpServer::serve` returns for a new connection, and what a notification leaves.
use cse124_httpserver.Base.{
  ℕ, find_first, ◌≡◌, refl, Bool, true, false, Option, none, some, [], Exception, ok, throw,
}
use cse124_httpserver.EventLoop.{returned, thrown, Pollable, process_notified}
use cse124_httpserver.Http.{HttpRequest, HttpResponse}
use cse124_httpserver.AsyncHandlers.{Task}
use cse124_httpserver.AsyncServer.{Pending, request_read, leaves, handle_http_connection}
use cse124_httpserver.AsyncServer.Steps.{fresh}
use cse124_httpserver.Connection.{crlfcrlf}
use cse124_httpserver.AsyncConnection.Reading.{read_until_async}
use cse124_httpserver.AsyncConnection.Reading.Blocking.{take_content-none}

module _ (handler : HttpRequest → Task HttpResponse) (pollable : Pollable Pending) where
  leaves-process_notified :
      (p : Pending) (done : Bool) (next : Option Pending)
      → pollable.is_done p ≡ done
      → leaves handler done p (ok next) ≡ ok (process_notified pollable (p, returned next) [])
  leaves-process_notified p true none e = rw e refl
  leaves-process_notified p true (some q) e = rw e refl
  leaves-process_notified p false none e = rw e refl
  leaves-process_notified p false (some q) e = rw e refl

  leaves-thrown :
      (p : Pending) (done : Bool) (e : Exception)
      → leaves handler done p (throw e) ≡ ok (process_notified pollable (p, thrown) [])
  leaves-thrown p true e = refl
  leaves-thrown p false e = refl

module _ (handler : HttpRequest → Task HttpResponse) where
  -- A new connection starts with a read of its socket; the callback throws nothing.
  pub fresh_reads :
      (now peer : ℕ)
      → handle_http_connection handler now (fresh peer) ≡ (ok (some (request_read now)), fresh peer)
  unfolding handle_http_connection read_until_async
  fresh_reads now peer =
      let missing : find_first crlfcrlf [] ≡ none = unfold find_first in refl in
      rw (take_content-none crlfcrlf [] missing) refl
