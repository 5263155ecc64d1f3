-- ===== src/Connection/Frames.antt =====
-- `handle_connection` on a connection that brings one frame after another.
use cse124_httpserver.Base.{
  ℕ, zero, suc, ◌+◌, ◌<◌, ◌≤◌, length-append, ◌≡◌, Exception, ◌≢◌, refl, ◌∙◌, true, false, none,
  some, List, [], ◌∷◌, ◌++◌, append_assoc, append-nil, arith, length, take, drop,
  take-length_append, drop-length_append, drop-drop, All, Text, codes, find_first,
  find_first-append, Result, ok, throw, connection_closed,
}
use cse124_httpserver.Http.{
  HttpRequest, HttpResponse, serialize, pack_response, parse_request_frame, has_header,
}
use cse124_httpserver.Connection.{
  Connection, crlfcrlf, read_request, write_response, says_close, answer, serve_loop, catch_all,
  write, send, read_until, handle_connection,
}
use cse124_httpserver.Connection.Answers.{answer_for}
use cse124_httpserver.Connection.Chunks.{
  chunks, Delivers, whole, total, read_until-Found, read_until-closed,
}

-- Frames, each with the response to it.
abbrev pub Exchanges : Type 0
Exchanges = List (Text × HttpResponse)

abbrev pub frames_text : Exchanges → Text
frames_text [] = []
frames_text ((text, response) ∷ xs) = text ++ (crlfcrlf ++ frames_text xs)

abbrev pub replies_text : Exchanges → Text
replies_text [] = []
replies_text ((text, response) ∷ xs) = serialize (pack_response response) ++ replies_text xs

-- A frame: with the blank line behind it, that is the first one.
abbrev pub IsFrame : Text → Type 0
IsFrame text = find_first crlfcrlf (text ++ crlfcrlf) ≡ some (length text)

-- A frame after which the server goes on to the next: a request with a Host header, which the
-- handler answers, and which does not ask to close.
abbrev pub Continued : (HttpRequest → Result HttpResponse) → ℕ → Text × HttpResponse → Type 0
Continued handler peer (text, response) =
    (request : HttpRequest) × IsFrame text
    × (parse_request_frame (record { contents = text }) ≡ ok request)
    × (has_header request.headers (codes "Host") ≡ true)
    × (handler (record request { remote_ip = peer }) ≡ ok response)
    × (says_close request ≡ false)

-- A frame, with the response that the server answers it with.
abbrev pub Answered : (HttpRequest → Result HttpResponse) → ℕ → Text × HttpResponse → Type 0
Answered handler peer (text, response) = IsFrame text × (answer_for handler peer text ≡ ok response)

-- The server goes on after each frame but the last, which it answers.
abbrev pub Ended : (HttpRequest → Result HttpResponse) → ℕ → Exchanges → Type 0
Ended handler peer [] = Unit
Ended handler peer (x ∷ []) = Answered handler peer x
Ended handler peer (x ∷ y ∷ xs) = Continued handler peer x × Ended handler peer (y ∷ xs)

pub Ended-snoc :
    (handler : HttpRequest → Result HttpResponse) (peer : ℕ) (xs : Exchanges)
    (last : Text × HttpResponse)
    → All (Continued handler peer) xs
    → Answered handler peer last
    → Ended handler peer (xs ++ last ∷ [])
Ended-snoc handler peer [] last good end = end
Ended-snoc handler peer (x ∷ []) last (here, good) end = (here, end)
Ended-snoc handler peer (x ∷ y ∷ xs) last (here, good) end =
    (here, Ended-snoc handler peer (y ∷ xs) last good end)

pub write-sends :
    (s : Text) (c : Connection)
    → c.sends ≡ []
    → write s c ≡ (ok tt, record c { written = c.written ++ s })
unfolding write send
write-sends s c e = rw (e, send) refl

pub read_request-throw :
    (c : Connection) {e : Exception} {c1 : Connection}
    → read_until crlfcrlf c ≡ (throw e, c1)
    → read_request c ≡ (throw e, c1)
read_request-throw c e = unfold read_request in rw e refl

pub read_request-ok :
    (c : Connection) (text : Text) {r : HttpRequest} {c1 : Connection}
    → read_until crlfcrlf c ≡ (ok text, c1)
    → parse_request_frame (record { contents = text }) ≡ ok r
    → read_request c ≡ (ok (record r { remote_ip = c1.peer }), c1)
read_request-ok c text run parsed = unfold read_request in rw (run, parsed) refl

-- A connection that read the text of a frame: what remains.
abbrev pub Cut : Connection → Text → Text → Type 0
Cut c text rest =
    (buffer : Text) × (cs : List Text) × (read_until crlfcrlf c
      ≡ (ok text, record c { buffer = buffer; reads = chunks cs }))
    × All (λ t. t ≢ []) cs
    × (buffer ++ total cs ≡ rest)

pub read_until-Cut :
    (c : Connection) (cs : List Text) (text rest : Text)
    → Delivers c cs
    → IsFrame text
    → whole c cs ≡ text ++ (crlfcrlf ++ rest)
    → Cut c text rest
read_until-Cut c cs text rest comes frame e =
    let n = length text in
    let found : find_first crlfcrlf (whole c cs) ≡ some n =
      rw (e, ← append_assoc text crlfcrlf rest)
        (find_first-append crlfcrlf (text ++ crlfcrlf) rest n frame) in
    let (buffer, later, run, behind, full) = read_until-Found crlfcrlf c cs n comes found in
    let content : take n (whole c cs) ≡ text = rw e (take-length_append text _) in
    let left : drop (n + 4) (whole c cs) ≡ rest =
      rw
        (
          e,
          ← drop-drop 4 n (n + 4) (text ++ (crlfcrlf ++ rest)) (omega arith),
          drop-length_append text,
        )
        refl in
    (buffer, later, rw content at run, full, behind ∙ left)

module _ (handler : HttpRequest → Result HttpResponse) where
  pub answer-Continued :
      (r : HttpRequest) (a : HttpResponse) (c : Connection)
      → has_header r.headers (codes "Host") ≡ true
      → handler (record r { remote_ip = c.peer }) ≡ ok a
      → says_close r ≡ false
      → c.sends ≡ []
      → answer handler (record r { remote_ip = c.peer }) c
        ≡ (ok true, record c { written = c.written ++ serialize (pack_response a) })
  unfolding answer write_response says_close
  answer-Continued r a c host answered stays free =
      rw (host, answered, write-sends (serialize (pack_response a)) c free, stays) refl

  pub serve_loop-again :
      (f : ℕ) (c : Connection) {r : HttpRequest} {c1 c2 : Connection}
      → read_request c ≡ (ok r, c1)
      → answer handler r c1 ≡ (ok true, c2)
      → serve_loop handler (suc f) c ≡ serve_loop handler f c2
  serve_loop-again f c run e = unfold serve_loop in rw (run, e) refl

  pub serve_loop-throw :
      (f : ℕ) (c : Connection) {e : Exception} {c1 : Connection}
      → read_request c ≡ (throw e, c1)
      → serve_loop handler (suc f) c ≡ (throw e, c1)
  serve_loop-throw f c run = unfold serve_loop in rw run refl

  pub handle_connection-closed :
      (fuel : ℕ) (c : Connection) {c' : Connection}
      → serve_loop handler fuel c ≡ (throw connection_closed, c')
      → handle_connection handler fuel c ≡ (ok tt, c')
  handle_connection-closed fuel c run = unfold handle_connection catch_all in rw run refl

  -- The connection after the frames are answered and what follows them is read.
  abbrev pub Done : Connection → Exchanges → Text → Connection
  Done c xs rest = record c { reads = []; buffer = rest; written = c.written ++ replies_text xs }

  serve_loop-Continued :
      (xs : Exchanges) (rest : Text) (c : Connection) (cs : List Text) (fuel : ℕ)
      → length xs < fuel
      → Delivers c cs
      → c.sends ≡ []
      → whole c cs ≡ frames_text xs ++ rest
      → All (Continued handler c.peer) xs
      → find_first crlfcrlf rest ≡ none
      → serve_loop handler fuel c ≡ (throw connection_closed, Done c xs rest)
  serve_loop-Continued xs rest c cs zero h comes free e good ends = absurd (omega arith)
  serve_loop-Continued [] rest c cs (suc f) h comes free e good ends =
      serve_loop-throw f c
        (read_request-throw c (read_until-closed crlfcrlf c cs comes (rw e ends)))
      ∙ rw (e, append-nil)
  serve_loop-Continued ((text, a) ∷ xs) rest c cs (suc f) h comes free e
        ((r, frame, parsed, host, answered, stays), good) ends =
      let (buffer, cs', run, full, left) =
        read_until-Cut c cs text (frames_text xs ++ rest) comes frame
          (e ∙ append_assoc text (crlfcrlf ++ frames_text xs) rest) in
      let c1 = record c { buffer = buffer; reads = chunks cs' } in
      let c2 = record c1 { written = c.written ++ serialize (pack_response a) } in
      serve_loop-again f c (read_request-ok c text run parsed)
        (answer-Continued r a c1 host answered stays free)
      ∙ serve_loop-Continued xs rest c2 cs' f (omega arith) (refl, full) free left good ends
      ∙ rw append_assoc

  pub handle_connection-Continued :
      (xs : Exchanges) (rest : Text) (c : Connection) (cs : List Text) (fuel : ℕ)
      → length xs < fuel
      → Delivers c cs
      → c.sends ≡ []
      → whole c cs ≡ frames_text xs ++ rest
      → All (Continued handler c.peer) xs
      → find_first crlfcrlf rest ≡ none
      → handle_connection handler fuel c ≡ (ok tt, Done c xs rest)
  handle_connection-Continued xs rest c cs fuel h comes free e good ends =
      handle_connection-closed fuel c
        (serve_loop-Continued xs rest c cs fuel h comes free e good ends)

pub length-frames_text : (xs : Exchanges) → length xs ≤ length (frames_text xs)
length-frames_text [] = omega arith
length-frames_text ((text, response) ∷ xs) =
    omega (arith, length-frames_text xs, length-append text (crlfcrlf ++ frames_text xs))
