-- ===== src/AsyncServer/Running.antt =====
-- The whole asynchronous server of httpd.cpp, its listener and all connections in one event loop,
-- against the blocking server.
use cse124_httpserver.Base.{ℕ, ◌<◌, ◌≤◌, ◌≡◌, Option, List, [], ◌∷◌, ◌++◌, length, Text, ok}
use cse124_httpserver.Dns.{lookup_network}
use cse124_httpserver.Handlers.{directory_get_file}
use cse124_httpserver.Handlers.Files.{
  FileSystem, find_path, bytes_below, bytes_below-directory_get_file,
}
use cse124_httpserver.Launch.Site.{request_handler, request_handler_async}
use cse124_httpserver.Listener.{Registered, serving}
use cse124_httpserver.AsyncHandlers.Blocking.{supply-site_handler}
use cse124_httpserver.AsyncServer.{request_read}
use cse124_httpserver.AsyncServer.Steps.{Reach}
use cse124_httpserver.AsyncServer.Served.{Served, InLoop, at, Runs}
use cse124_httpserver.AsyncServer.Isolation.{Runs-Reach}
use cse124_httpserver.AsyncServer.Site.{site-handle_connection_prefix, site-handle_connection}
use cse124_httpserver.Connection.{Connection, handle_connection}
use cse124_httpserver.Connection.Chunks.{Delivers, whole}

module _ (inet_pton : Text → Option ℕ) (getaddrinfo : Text → ℕ × List ℕ) (format_date : ℕ → Text)
    (system : FileSystem) (doc_root : Text) (before after : List (Registered InLoop)) (s : Served)
    (runs : Runs
      (request_handler_async inet_pton getaddrinfo format_date system doc_root)
      (bytes_below system doc_root)
      (before ++ serving (at s) ∷ after)) where
  alone :
      Reach
        (request_handler_async inet_pton getaddrinfo format_date system doc_root)
        (bytes_below system doc_root)
        s.peer
        (s.pending ∷ [])
        s.conn
        s.input
  alone =
      Runs-Reach _ (bytes_below system doc_root)
        (request_handler inet_pton getaddrinfo format_date system doc_root)
        (supply-site_handler inet_pton (lookup_network getaddrinfo) format_date
          (directory_get_file (find_path system) doc_root) (bytes_below system doc_root)
          (bytes_below-directory_get_file system doc_root))
        before after s runs

  -- In the event loop of the asynchronous server for a directory of the system, after any turns in
  -- which the kernel answers lawfully and nothing undefined happens, whatever the other connections do:
  -- what the socket of a connection in the loop took is the start of what `handle_connection` of the
  -- blocking server for that directory writes on a connection from the same peer that delivers, in
  -- non-empty chunks, cut in any way, what this connection's own socket has brought so far and any
  -- more, with all sends whole and as many rounds as bytes brought.
  pub Runs-handle_connection_prefix :
      (later : Text) (c : Connection) (cs : List Text) (fuel : ℕ)
      → length s.input ≤ fuel
      → Delivers c cs
      → c.sends ≡ []
      → c.peer ≡ s.peer
      → whole c cs ≡ s.input ++ later
      → (more : Text) × ((handle_connection
            (request_handler inet_pton getaddrinfo format_date system doc_root)
            fuel
            c).1.written
          ≡ c.written ++ (s.conn.wire ++ more))
  Runs-handle_connection_prefix later c cs fuel =
      site-handle_connection_prefix inet_pton (lookup_network getaddrinfo) format_date
        (directory_get_file (find_path system) doc_root) (bytes_below system doc_root)
        (bytes_below-directory_get_file system doc_root) s.peer s.conn s.input (s.pending ∷ [])
        later c cs fuel alone

  -- In that event loop, after any turns in which the kernel answers lawfully and nothing undefined
  -- happens, for a connection in the loop that waits for more of a request: its socket took exactly
  -- what `handle_connection` of the blocking server for that directory writes on a connection from the
  -- same peer that delivers the same text in non-empty chunks, cut in any way, with all sends
  -- whole and more rounds than bytes, before it returns at the peer's close; and it leaves the
  -- same text in the buffer.
  pub Runs-handle_connection :
      (started : ℕ) (c : Connection) (cs : List Text) (fuel : ℕ)
      → s.pending ≡ request_read started
      → length s.input < fuel
      → Delivers c cs
      → c.sends ≡ []
      → c.peer ≡ s.peer
      → whole c cs ≡ s.input
      → handle_connection (request_handler inet_pton getaddrinfo format_date system doc_root) fuel c
        ≡ (
          ok tt,
          record c { reads = []; buffer = s.conn.buffer; written = c.written ++ s.conn.wire },
        )
  Runs-handle_connection started c cs fuel waits =
      site-handle_connection inet_pton (lookup_network getaddrinfo) format_date
        (directory_get_file (find_path system) doc_root) (bytes_below system doc_root)
        (bytes_below-directory_get_file system doc_root) s.peer s.conn s.input started c cs fuel
        (rw waits at alone)
