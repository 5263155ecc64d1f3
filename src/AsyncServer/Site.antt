-- ===== src/AsyncServer/Site.antt =====
-- The server that `serve_async` of httpd.cpp starts, on one connection, against the blocking server.
use cse124_httpserver.Base.{
  ℕ, ◌<◌, ◌≤◌, ◌≡◌, ◌≢◌, All, find_first, none, ◌++◌, length, Option, some, List, [], ◌∷◌, Text,
  Result, ok,
}
use cse124_httpserver.Handlers.{File, FileRepository, site_handler}
use cse124_httpserver.AsyncHandlers.{site_handler_async}
use cse124_httpserver.AsyncHandlers.Blocking.{supply-site_handler}
use cse124_httpserver.AsyncServer.{AsyncHttpConnection, Pending, request_read}
use cse124_httpserver.AsyncServer.Steps.{Reach}
use cse124_httpserver.Connection.Frames.{Exchanges, frames_text, Continued}
use cse124_httpserver.AsyncServer.Progress.{Replied, Reach-Replied}
use cse124_httpserver.AsyncConnection.{bufsize}
use cse124_httpserver.AsyncServer.Equivalence.{Settled-handle_connection, Waiting-handle_connection}
use cse124_httpserver.Connection.{Connection, crlfcrlf, handle_connection}
use cse124_httpserver.Connection.Chunks.{Delivers, whole}
use cse124_httpserver.AsyncServer.Soundness.{Reach-Settled, Reach-Waiting}

module _ (inet_pton : Text → Option ℕ) (lookup : Text → Result (List ℕ)) (format_date : ℕ → Text)
    (get_file : FileRepository) (contents : Text → Text)
    (holds : (path : Text) (file : File)
      → get_file path ≡ some file
      → contents path ≡ file.file_contents)
    (peer : ℕ) (conn : AsyncHttpConnection) (input : Text) where
  -- If the reads of files bring their contents, then at every moment, under every schedule of socket
  -- reads that do not block, file reads, writes that do not fail, and drops, what the socket of a
  -- connection took is the start of what the blocking server's `handle_connection` writes on a
  -- connection from the same peer that delivers, in non-empty chunks, cut in any way, the text received
  -- so far and any more, with all sends whole and as many rounds as bytes received.
  pub site-handle_connection_prefix :
      (ps : List Pending) (later : Text) (c : Connection) (cs : List Text) (fuel : ℕ)
      → Reach (site_handler_async inet_pton lookup format_date get_file) contents peer ps conn input
      → length input ≤ fuel
      → Delivers c cs
      → c.sends ≡ []
      → c.peer ≡ peer
      → whole c cs ≡ input ++ later
      → (more : Text) × ((handle_connection
            (site_handler inet_pton lookup format_date get_file)
            fuel
            c).1.written
          ≡ c.written ++ (conn.wire ++ more))
  site-handle_connection_prefix ps later c cs fuel r h comes free same e =
      Settled-handle_connection (site_handler inet_pton lookup format_date get_file) peer conn input
        later c cs fuel h comes free same e
        (Reach-Settled _ contents _ peer
          (supply-site_handler inet_pton lookup format_date get_file contents holds) ps conn input
          r)

  -- If the reads of files bring their contents, then whenever, under such a schedule, a connection
  -- waits for more of a request, its socket took exactly what the blocking server's
  -- `handle_connection` writes on a connection from the same peer that delivers the same text in
  -- non-empty chunks, cut in any way, with all sends whole and more rounds than bytes, before
  -- it returns at the peer's close; and it leaves the same text in the buffer.
  pub site-handle_connection :
      (started : ℕ) (c : Connection) (cs : List Text) (fuel : ℕ)
      → Reach
          (site_handler_async inet_pton lookup format_date get_file)
          contents
          peer
          (request_read started ∷ [])
          conn
          input
      → length input < fuel
      → Delivers c cs
      → c.sends ≡ []
      → c.peer ≡ peer
      → whole c cs ≡ input
      → handle_connection (site_handler inet_pton lookup format_date get_file) fuel c
        ≡ (ok tt, record c { reads = []; buffer = conn.buffer; written = c.written ++ conn.wire })
  site-handle_connection started c cs fuel r h comes free same e =
      Waiting-handle_connection (site_handler inet_pton lookup format_date get_file) peer conn input
        c cs fuel h comes free same e
        (Reach-Waiting _ contents _ peer
          (supply-site_handler inet_pton lookup format_date get_file contents holds) started conn
          input r)

  -- If the reads of files bring their contents: where a connection waits, and the bytes that come,
  -- fewer than a read's buffer holds, make up with the buffer any number of frames after which the
  -- blocking server goes on, and a rest without a blank line, a schedule leads to where the connection
  -- waits again, with the blocking server's replies to these frames written behind what was written
  -- before, in order, and the rest buffered.
  pub site-Replied :
      (now started : ℕ) (s : Text) (xs : Exchanges) (rest : Text)
      → Reach
          (site_handler_async inet_pton lookup format_date get_file)
          contents
          peer
          (request_read started ∷ [])
          conn
          input
      → s ≢ []
      → length s < bufsize
      → conn.buffer ++ s ≡ frames_text xs ++ rest
      → All (Continued (site_handler inet_pton lookup format_date get_file) peer) xs
      → find_first crlfcrlf rest ≡ none
      → Replied
          (site_handler_async inet_pton lookup format_date get_file)
          contents
          peer
          now
          conn.wire
          xs
          rest
          (input ++ s)
  site-Replied now started s xs rest =
      Reach-Replied (site_handler_async inet_pton lookup format_date get_file) contents peer now
        (site_handler inet_pton lookup format_date get_file)
        (supply-site_handler inet_pton lookup format_date get_file contents holds) started conn
        input s xs rest
