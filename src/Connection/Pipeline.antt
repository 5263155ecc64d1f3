-- ===== src/Connection/Pipeline.antt =====
-- `handle_connection` on a connection that brings one well-formed request after another.
use cse124_httpserver.Base.{
  ℕ, suc, ◌<◌, ◌≡◌, refl, sym, ap, ◌∙◌, true, false, none, List, [], ◌∷◌, ◌++◌, append_assoc,
  length, All, Text, codes, find_first, Result, ok,
}
use cse124_httpserver.Http.{HttpRequest, HttpResponse, serialize, pack_response, has_header}
use cse124_httpserver.Http.RoundTrip.{IsWellFormed, frame_of, parse-frame_of}
use cse124_httpserver.Http.FrameEnd.{frame_of-end}
use cse124_httpserver.Connection.{Connection, crlfcrlf, says_close, handle_connection}
use cse124_httpserver.Connection.Frames.{
  Exchanges, frames_text, replies_text, Continued, handle_connection-Continued,
}
use cse124_httpserver.Connection.Chunks.{Delivers, whole}

-- The request as the handler gets it, from a peer.
abbrev pub seen : ℕ → HttpRequest → HttpRequest
seen peer r = record r { body = []; remote_ip = peer }

-- What a peer sends for a request without a body.
abbrev pub sent : HttpRequest → Text
sent r = (frame_of r).contents ++ crlfcrlf

-- The texts of the requests, one after another, and then some more.
abbrev pub stream : List (HttpRequest × HttpResponse) → Text → Text
stream [] rest = rest
stream ((r, a) ∷ served) rest = sent r ++ stream served rest

-- The texts of the responses.
abbrev pub replies : List (HttpRequest × HttpResponse) → Text
replies [] = []
replies ((r, a) ∷ served) = serialize (pack_response a) ++ replies served

-- A well-formed request with a Host header that does not ask to close the connection, with the
-- response the handler gives it.
pub record IsServed (handler : HttpRequest → Result HttpResponse) (peer : ℕ)
    (x : HttpRequest × HttpResponse) : Type 0 where
  pub well : IsWellFormed x.0
  pub host : has_header x.0.headers (codes "Host") ≡ true
  pub stays : says_close x.0 ≡ false
  pub answered : handler (seen peer x.0) ≡ ok x.1

abbrev frames : List (HttpRequest × HttpResponse) → Exchanges
frames [] = []
frames ((r, a) ∷ served) = ((frame_of r).contents, a) ∷ frames served

stream-frames :
    (served : List (HttpRequest × HttpResponse)) (rest : Text)
    → stream served rest ≡ frames_text (frames served) ++ rest
stream-frames [] rest = refl
stream-frames ((r, a) ∷ served) rest =
    append_assoc (frame_of r).contents crlfcrlf (stream served rest)
    ∙ ap (λ t. (frame_of r).contents ++ (crlfcrlf ++ t)) (stream-frames served rest)
    ∙ sym (append_assoc (frame_of r).contents (crlfcrlf ++ frames_text (frames served)) rest)

replies-frames :
    (served : List (HttpRequest × HttpResponse)) → replies_text (frames served) ≡ replies served
replies-frames [] = refl
replies-frames ((r, a) ∷ served) = ap (◌++◌ (serialize (pack_response a))) (replies-frames served)

length-frames :
    (served : List (HttpRequest × HttpResponse)) → length (frames served) ≡ length served
length-frames [] = refl
length-frames (x ∷ served) = ap suc (length-frames served)

module _ (handler : HttpRequest → Result HttpResponse) where
  frames-Continued :
      (peer : ℕ) (served : List (HttpRequest × HttpResponse))
      → All (IsServed handler peer) served
      → All (Continued handler peer) (frames served)
  unfolding says_close
  frames-Continued peer [] good = tt
  frames-Continued peer ((r, a) ∷ served) (here, good) = (
    (
      record r { body = []; remote_ip = 0 },
      frame_of-end r [] here.well,
      parse-frame_of r here.well,
      here.host,
      here.answered,
      here.stays,
    ),
    frames-Continued peer served good,
  )

  -- The connection after some requests are answered and what follows them is read.
  abbrev pub Served : Connection → List (HttpRequest × HttpResponse) → Text → Connection
  Served c served rest = record c {
    reads = [];
    buffer = rest;
    written = c.written ++ replies served;
  }

  -- Where a connection brings the texts of well-formed requests that name a host, do not ask to
  -- close and get a response from the handler, cut into non-empty chunks in any way, and then some
  -- text without a blank line, where all sends are whole and the rounds are more than the requests,
  -- `handle_connection` writes the responses of the handler to the requests, in their order, and
  -- nothing else, and returns once the peer closes.
  pub handle_connection-pipeline :
      (served : List (HttpRequest × HttpResponse)) (rest : Text) (c : Connection) (cs : List Text)
      (fuel : ℕ)
      → length served < fuel
      → Delivers c cs
      → c.sends ≡ []
      → whole c cs ≡ stream served rest
      → All (IsServed handler c.peer) served
      → find_first crlfcrlf rest ≡ none
      → handle_connection handler fuel c ≡ (ok tt, Served c served rest)
  handle_connection-pipeline served rest c cs fuel h comes free e good ends =
      let enough : length (frames served) < fuel = rw (length-frames served) h in
      handle_connection-Continued handler (frames served) rest c cs fuel enough comes free
        (e ∙ stream-frames served rest) (frames-Continued c.peer served good) ends
      ∙ rw (replies-frames served) refl
