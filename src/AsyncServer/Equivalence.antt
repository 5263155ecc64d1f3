-- ===== src/AsyncServer/Equivalence.antt =====
-- The blocking `handle_connection` on what a connection of the asynchronous server replied to.
use cse124_httpserver.Base.{
  ℕ, ◌<◌, ◌≤◌, sym, append_assoc, length-append, ◌≡◌, refl, ap, ◌∙◌, List, [], ◌++◌, arith, length,
  Text, Result, ok,
}
use cse124_httpserver.Http.{HttpRequest, HttpResponse}
use cse124_httpserver.Connection.{Connection, handle_connection}
use cse124_httpserver.Connection.Chunks.{Delivers, whole}
use cse124_httpserver.Connection.Frames.{
  length-frames_text, handle_connection-Continued, frames_text,
}
use cse124_httpserver.AsyncServer.{AsyncHttpConnection}
use cse124_httpserver.AsyncServer.Exchanges.{Settled, Waiting}
use cse124_httpserver.Connection.Growth.{handle_connection-Ended}

-- The bytes that the asynchronous server wrote for a text are those that the blocking server writes.
pub Waiting-handle_connection :
    (handler : HttpRequest → Result HttpResponse) (peer : ℕ) (conn : AsyncHttpConnection)
    (input : Text) (c : Connection) (cs : List Text) (fuel : ℕ)
    → length input < fuel
    → Delivers c cs
    → c.sends ≡ []
    → c.peer ≡ peer
    → whole c cs ≡ input
    → Waiting handler peer conn input
    → handle_connection handler fuel c
      ≡ (ok tt, record c { reads = []; buffer = conn.buffer; written = c.written ++ conn.wire })
Waiting-handle_connection handler peer conn input c cs fuel h comes free same e
      (xs, received, missing, replied, good) =
    let enough : length xs < fuel = omega (
      arith,
      length-frames_text xs,
      length-append (frames_text xs) conn.buffer,
      ap length received,
    ) in
    handle_connection-Continued handler xs conn.buffer c cs fuel enough comes free (e ∙ received)
      (rw same good) missing
    ∙ rw (← replied) refl

-- What the asynchronous server wrote is the start of what the blocking server writes for a text that
-- begins with the one received.
pub Settled-handle_connection :
    (handler : HttpRequest → Result HttpResponse) (peer : ℕ) (conn : AsyncHttpConnection)
    (input later : Text) (c : Connection) (cs : List Text) (fuel : ℕ)
    → length input ≤ fuel
    → Delivers c cs
    → c.sends ≡ []
    → c.peer ≡ peer
    → whole c cs ≡ input ++ later
    → Settled handler peer conn input
    → (more : Text) × ((handle_connection handler fuel c).1.written
        ≡ c.written ++ (conn.wire ++ more))
Settled-handle_connection handler peer conn input later c cs fuel h comes free same e
      (xs, rest, unsent, received, replied, good) =
    let enough : length xs ≤ fuel =
      omega
        (arith, length-frames_text xs, length-append (frames_text xs) rest, ap length received) in
    let (more, wrote) =
      handle_connection-Ended handler xs (rest ++ later) c cs fuel enough comes free
        (e ∙ ap (◌++ later) received ∙ append_assoc (frames_text xs) rest later) (rw same good) in
    (
      unsent ++ more,
      wrote
          ∙ ap (λ t. c.written ++ (t ++ more)) (sym replied)
          ∙ ap (◌++◌ c.written) (append_assoc conn.wire unsent more),
    )
