-- ===== src/Connection.antt =====
-- connection.cpp, the HttpConnection of server.cpp, and `handle_connection` of
-- connection_handlers.cpp. What the peer does is data: `reads` are the outcomes of the next calls of
-- `Connection::read`, after which the connection is closed; `sends` are the outcomes of the next calls
-- of `::send`, after which each takes the whole text. `written` is what was sent.
pub mod Accepting
pub mod Chunks
pub mod Closing
pub mod Moving
pub mod Lifetime
pub mod Answers
pub mod Frames
pub mod Replies
pub mod Growth
pub mod Throwing
pub mod Truncating
pub mod Threads
pub mod Serving
pub mod Pipeline
pub mod Termination
use cse124_httpserver.Base.{
  ℕ, zero, suc, ◌-◌, Bool, true, false, not, Option, none, some, List, [], ◌∷◌, ◌++◌, length, take,
  ltb, ◌==◌, if◌then◌else◌, Text, codes, text_eq, find, find_first, Exception,
  http_request_parse_error, connection_closed, connection_error, Result, ok, throw, undefined,
  no_fuel,
}
use cse124_httpserver.Util.{pop_n_sstream}
use cse124_httpserver.Http.{
  HttpFrame, HttpRequest, HttpResponse, serialize, pack_response, parse_request_frame, has_header,
  get_header, bad_request_response, internal_server_error_response,
}

abbrev pub buffer_size : ℕ
buffer_size = 2000

-- What `::recv` gives.
pub data Recv : Type 0 where
  bytes : Text → Recv
  would_block failed : Recv

-- `string(buf)` of a buffer that ends in a zero byte
unfoldable pub c_string : Text → Text
c_string [] = []
c_string (c ∷ s) = let rest = c_string s in if c == 0 then [] else c ∷ rest

-- `SocketConnection::read`. A full buffer has no room for the byte that ends it.
unfoldable pub socket_read : Recv → Result Text
unfolding c_string
socket_read would_block = throw connection_closed
socket_read failed = throw connection_error
socket_read (bytes []) = throw connection_closed
socket_read (bytes (c ∷ s)) =
    if ltb (length (c ∷ s)) buffer_size then ok (c_string (c ∷ s)) else undefined

-- What `::send` gives: it takes the whole text, or so many bytes of it where these are fewer, or fails.
pub data Sent : Type 0 where
  sent_whole sent_failed : Sent
  sent_short : ℕ → Sent

pub record Connection : Type 0 where
  pub reads : List (Result Text)
  pub buffer : Text
  pub sends : List Sent
  pub written : Text
  pub peer : ℕ

-- A call returns its outcome and the connection after it.
abbrev pub M : Type 0 → Type 0
M A = Connection → Result A × Connection

-- The outcome of a pop, with the text that remains in the buffer.
abbrev pub popped : Result (Text × Text) → M Text
popped (ok (content, rest)) c = (ok content, record c { buffer = rest })
popped (throw e) c = (throw e, c)
popped undefined c = (undefined, c)
popped no_fuel c = (no_fuel, c)

-- The `do … while` loop of `read_until`.
pub read_loop : Text → List (Result Text) → M Text
read_loop sep [] c = (throw connection_closed, record c { reads = [] })
read_loop sep (throw e ∷ reads) c = (throw e, record c { reads = reads })
read_loop sep (undefined ∷ reads) c = (undefined, record c { reads = reads })
read_loop sep (no_fuel ∷ reads) c = (no_fuel, record c { reads = reads })
read_loop sep (ok chunk ∷ reads) c =
    let buffer = c.buffer ++ chunk in
    let c' = record c { reads = reads; buffer = buffer } in
    let more = read_loop sep reads c' in
    let all = popped (pop_n_sstream buffer (length buffer) 0) c' in
    elim (find buffer sep 0) [
      | some pos ↦ popped (pop_n_sstream buffer pos (length sep)) c'
      | none ↦ if text_eq chunk [] then all else more
    ]

-- `BufferedConnection::read_until`
unfoldable pub read_until : Text → M Text
unfolding read_loop
read_until sep c = elim (find c.buffer sep 0) [
  | some pos ↦ popped (pop_n_sstream c.buffer pos (length sep)) c
  | none ↦ read_loop sep c.reads c
]

-- `SocketConnection::write` of a socket that is not closed. Of a short send it only prints a warning.
send : List Sent → Text → M (Unit {0})
send [] s c = (ok tt, record c { written = c.written ++ s })
send (sent_whole ∷ sends) s c = (ok tt, record c { sends = sends; written = c.written ++ s })
send (sent_short n ∷ sends) s c =
    (ok tt, record c { sends = sends; written = c.written ++ take n s })
send (sent_failed ∷ sends) s c = (throw connection_error, record c { sends = sends })

-- `BufferedConnection::write`
unfoldable pub write : Text → M (Unit {0})
unfolding send
write s c = send c.sends s c

-- Goes on with the outcome of a call, on the connection after it.
abbrev pub resume : {A B : Type 0} → Result A × Connection → (A → M B) → Result B × Connection
resume (ok a, c) f = f a c
resume (throw e, c) f = (throw e, c)
resume (undefined, c) f = (undefined, c)
resume (no_fuel, c) f = (no_fuel, c)

infixl 5 ◌>>=◌ ◌>>◌
abbrev pub ◌>>=◌ : {A B : Type 0} → M A → (A → M B) → M B
◌>>=◌ m f c = resume (m c) f

abbrev pub ◌>>◌ : {B : Type 0} → M (Unit {0}) → M B → M B
◌>>◌ m k = m >>= λ _. k

abbrev pub lift : {A : Type 0} → Result A → M A
lift r c = (r, c)

abbrev pub crlfcrlf : Text
crlfcrlf = 13 ∷ 10 ∷ 13 ∷ 10 ∷ []

-- `HttpConnection::read_request`
unfoldable pub read_request : M HttpRequest
unfolding read_until
read_request = do
  content ← read_until crlfcrlf
  request ← lift (parse_request_frame (record { contents = content }))
  λ c. (ok (record request { remote_ip = c.peer }), c)

-- `HttpConnection::write_response`
unfoldable pub write_response : HttpResponse → M (Unit {0})
unfolding write
write_response response = write (serialize (pack_response response))

-- `find("close") != npos` on the value of the Connection header
unfoldable pub says_close : HttpRequest → Bool
says_close request =
    elim (find (get_header request.headers (codes "Connection")).value (codes "close") 0) [
      | some _ ↦ true
      | none ↦ false
    ]

module _ (handler : HttpRequest → Result HttpResponse) where
  -- The body of the loop for one request; false leaves the loop.
  unfoldable pub answer : HttpRequest → M Bool
  unfolding write_response
  answer request =
      if has_header request.headers (codes "Host")
      then (do
        response ← lift (handler request)
        write_response response
        lift (ok (not (says_close request))))
      else (do write_response bad_request_response; lift (ok false))

  -- The body of the loop: false leaves it.
  abbrev pub serve_once : M Bool
  serve_once = do request ← read_request; answer request

  -- `while (true)`, for at most so many rounds.
  unfoldable pub serve_loop : ℕ → M (Unit {0})
  serve_loop zero = lift no_fuel
  serve_loop (suc f) = do
    again ← serve_once
    elim again [ true ↦ serve_loop f | false ↦ lift (ok tt) ]

  -- The `catch` clauses, in their order.
  pub catch_all : Result (Unit {0}) × Connection → Result (Unit {0}) × Connection
  unfolding write_response
  catch_all (throw http_request_parse_error, c) = write_response bad_request_response c
  catch_all (throw connection_closed, c) = (ok tt, c)
  catch_all (throw _, c) = write_response internal_server_error_response c
  catch_all (r, c) = (r, c)

  -- `handle_connection`
  unfoldable pub handle_connection : ℕ → M (Unit {0})
  unfolding serve_loop catch_all
  handle_connection fuel c = catch_all (serve_loop fuel c)
