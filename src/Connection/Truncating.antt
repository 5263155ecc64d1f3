-- ===== src/Connection/Truncating.antt =====
-- A reply of which `::send` takes a part only: `SocketConnection::write` prints a warning and returns.
use cse124_httpserver.Base.{
  ℕ, suc, ◌≡◌, refl, ap, true, false, List, ◌∷◌, ◌++◌, take, Text, codes, Result, ok,
}
use cse124_httpserver.Http.{HttpRequest, HttpResponse, serialize, pack_response, has_header}
use cse124_httpserver.Connection.{
  Connection, Sent, sent_short, crlfcrlf, write_response, write, send, says_close, answer,
  catch_all, handle_connection,
}
use cse124_httpserver.Connection.Chunks.{chunks, Delivers, whole}
use cse124_httpserver.Connection.Frames.{
  Continued, read_until-Cut, read_request-ok, serve_loop-again,
}

module _ (handler : HttpRequest → Result HttpResponse) where
  -- The answer to a request is cut short, and the loop goes on.
  answer-short :
      (r : HttpRequest) (a : HttpResponse) (c : Connection) (n : ℕ) (sends : List Sent)
      → has_header r.headers (codes "Host") ≡ true
      → handler (record r { remote_ip = c.peer }) ≡ ok a
      → says_close r ≡ false
      → c.sends ≡ sent_short n ∷ sends
      → answer handler (record r { remote_ip = c.peer }) c ≡ (
        ok true,
        record c { sends = sends; written = c.written ++ take n (serialize (pack_response a)) },
      )
  unfolding answer write_response says_close write send
  answer-short r a c n sends host answered stays short = rw (host, answered, short, stays) refl

  -- If a connection brings, in non-empty chunks and before any other text, the frame of a request
  -- after which the server goes on, and the send of the reply takes so many bytes only, then
  -- `handle_connection` does what it does, with a round less, on a connection that brings what is
  -- behind the frame, and that was sent these bytes of the reply: the rest of it is never sent.
  pub handle_connection-short_reply :
      (fuel : ℕ) (text rest : Text) (a : HttpResponse) (c : Connection) (cs : List Text) (n : ℕ)
      (sends : List Sent)
      → Delivers c cs
      → whole c cs ≡ text ++ (crlfcrlf ++ rest)
      → Continued handler c.peer (text, a)
      → c.sends ≡ sent_short n ∷ sends
      → (c' : Connection) × (cs' : List Text) × Delivers c' cs'
        × (whole c' cs' ≡ rest)
        × (c'.sends ≡ sends)
        × (c'.peer ≡ c.peer)
        × (c'.written ≡ c.written ++ take n (serialize (pack_response a)))
        × (handle_connection handler (suc fuel) c ≡ handle_connection handler fuel c')
  handle_connection-short_reply fuel text rest a c cs n sends comes e
        (request, frame, parsed, host, answered, stays) short =
      let (buffer, later, run, full, left) = read_until-Cut c cs text rest comes frame e in
      let c1 = record c { buffer = buffer; reads = chunks later } in
      (
        record c1 { sends = sends; written = c.written ++ take n (serialize (pack_response a)) },
        later,
        (refl, full),
        left,
        refl,
        refl,
        refl,
        unfold handle_connection in
            ap (catch_all handler) (
              serve_loop-again handler fuel c (read_request-ok c text run parsed)
                (answer-short request a c1 n sends host answered stays short)),
      )
