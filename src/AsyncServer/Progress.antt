-- ===== src/AsyncServer/Progress.antt =====
-- A connection of the asynchronous server that has received frames can be served: there is a schedule
-- on which it replies to all of them and waits for more.
use cse124_httpserver.Base.{
  ℕ, ◌+◌, ◌<◌, ◌≡◌, ◌≢◌, refl, sym, ap, ◌∙◌, true, Option, none, some, [], ◌∷◌, ◌++◌, append_assoc,
  append-nil, length, take, drop, take-length_append, drop-length_append, drop-drop, All, Text,
  codes, find_first, find_first-append, Result, ok,
}
use cse124_httpserver.Http.{
  HttpRequest, HttpResponse, serialize, pack_response, parse_request_frame, has_header,
}
use cse124_httpserver.Connection.{bytes, crlfcrlf, says_close}
use cse124_httpserver.AsyncConnection.{bufsize}
use cse124_httpserver.AsyncConnection.Reading.{take_content, read_until_async}
use cse124_httpserver.AsyncConnection.Reading.Blocking.{
  take_content-none, take_content-some, notify_read-bytes,
}
use cse124_httpserver.AsyncHandlers.{Task}
use cse124_httpserver.AsyncHandlers.Blocking.{supply}
use cse124_httpserver.AsyncServer.{
  leaves, AsyncHttpConnection, Pending, request_read, run_task, on_request, on_content,
  continue_with, handle_http_connection, notify_request_read,
}
use cse124_httpserver.AsyncServer.Steps.{listed, Reach, reads}
use cse124_httpserver.Connection.Frames.{Exchanges, frames_text, replies_text, Continued}
use cse124_httpserver.AsyncServer.Soundness.{Reach-Inv}
use cse124_httpserver.AsyncServer.Answering.{task_starts, task_answers, write_answers}

module _ (handler : HttpRequest → Task HttpResponse) (contents : Text → Text) (peer now : ℕ) where
  leaves-listed :
      (p : Pending) (next : Option Pending) → leaves handler true p (ok next) ≡ ok (listed next)
  leaves-listed p none = refl
  leaves-listed p (some q) = refl

  -- The connection waits for more, with these exchanges replied to and this rest in its buffer.
  abbrev pub Replied : Text → Exchanges → Text → Text → Type 0
  Replied wire xs rest input =
      (conn : AsyncHttpConnection) × Reach handler contents peer (request_read now ∷ []) conn input
      × (conn.wire ≡ wire ++ replies_text xs)
      × (conn.buffer ≡ rest)

  -- A callback that leads there.
  abbrev pub Leads :
      Result (Option Pending) × AsyncHttpConnection → Text → Exchanges → Text → Text → Type 0
  Leads after wire xs rest input =
      (next : Option Pending) × (after.0 ≡ ok next)
      × (Reach handler contents peer (listed next) after.1 input → Replied wire xs rest input)

  module _ (blocking : HttpRequest → Result HttpResponse)
      (agrees : (request : HttpRequest)
        → supply contents (handler request) ≡ blocking request) where
    on_content_starts :
        (conn : AsyncHttpConnection) (text : Text) (request : HttpRequest) (p : Pending)
        → parse_request_frame (record { contents = text }) ≡ ok request
        → has_header request.headers (codes "Host") ≡ true
        → let request' = record request { remote_ip = conn.remote_ip } in
          run_task now conn request' (handler request') ≡ ok (some p)
          → on_content handler now conn text ≡ ok (some p)
    unfolding on_content on_request
    on_content_starts conn text request p parsed named started = rw (parsed, named, started) refl

    -- A frame at hand leads to its reply, and to what the frames behind it lead to.
    frame-Leads :
        (text : Text) (a : HttpResponse) (xs : Exchanges) (rest input : Text)
        (conn : AsyncHttpConnection)
        → Continued blocking peer (text, a)
        → conn.remote_ip ≡ peer
        → (let conn' = record conn { wire = conn.wire ++ serialize (pack_response a) } in
            Leads
              (continue_with handler now conn' (take_content crlfcrlf conn.buffer))
              conn'.wire
              xs
              rest
              input)
        → Leads (on_content handler now conn text, conn) conn.wire ((text, a) ∷ xs) rest input
    unfolding says_close
    frame-Leads text a xs rest input conn (request, frame, parsed, named, answered, stays) known
          (next, run, lead) =
        let request' = record request { remote_ip = conn.remote_ip } in
        let e : supply contents (handler request') ≡ ok a =
          agrees request'
          ∙ ap (λ ip. blocking (record request { remote_ip = ip })) known
          ∙ answered in
        let message = serialize (pack_response a) in
        let conn' = record conn { wire = conn.wire ++ message } in
        let after = continue_with handler now conn' (take_content crlfcrlf conn.buffer) in
        let same : handle_http_connection handler now conn' ≡ (ok next, after.1) =
          unfold handle_http_connection read_until_async in ap (λ o. (o, after.1)) run in
        let (p, started) =
          task_starts handler contents peer now conn request' (handler request') a e in
        (
          some p,
          on_content_starts conn text request p parsed named started,
          λ r.
              let writing =
                task_answers handler contents peer now conn request' (handler request') a p input e
                  started r in
              let (there, reach, wire, buffer) = lead (
                write_answers handler contents peer now conn after.1 request' a next input stays
                  same writing) in
              (there, reach, wire ∙ append_assoc conn.wire message (replies_text xs), buffer),
        )

    frames-Leads :
        (xs : Exchanges) (rest buffer input : Text) (conn : AsyncHttpConnection)
        → buffer ≡ frames_text xs ++ rest
        → All (Continued blocking peer) xs
        → find_first crlfcrlf rest ≡ none
        → conn.remote_ip ≡ peer
        → Leads
            (continue_with handler now conn (take_content crlfcrlf buffer))
            conn.wire
            xs
            rest
            input
    frames-Leads [] rest buffer input conn e good miss known =
        rw (take_content-none crlfcrlf buffer (rw e miss)) (
          some (request_read now),
          refl,
          λ r. (record conn { buffer = buffer }, r, sym (append-nil conn.wire), e),
        )
    frames-Leads ((text, a) ∷ xs) rest buffer input conn e (here, good) miss known =
        let n = length text in
        let behind = frames_text xs ++ rest in
        let e' : buffer ≡ text ++ (crlfcrlf ++ behind) =
          e ∙ append_assoc text (crlfcrlf ++ frames_text xs) rest in
        let found : find_first crlfcrlf buffer ≡ some n =
          rw (e', ← append_assoc text crlfcrlf behind)
            (find_first-append crlfcrlf (text ++ crlfcrlf) behind n here.1) in
        let front : take n buffer ≡ text = rw e' (take-length_append text _) in
        let left : drop (n + 4) buffer ≡ behind =
          rw
            (
              e',
              ← drop-drop 4 n (n + 4) (text ++ (crlfcrlf ++ behind)) refl,
              drop-length_append text,
            )
            refl in
        let conn1 = record conn { buffer = behind } in
        rw (take_content-some crlfcrlf buffer n found, front, left)
          (frame-Leads text a xs rest input conn1 here known (
            frames-Leads xs rest behind input
              (record conn1 { wire = conn.wire ++ serialize (pack_response a) }) refl good miss
              known))

    -- Where the text that has come is frames after which the server goes on, and a rest without one,
    -- a schedule leads to where all of these are replied to.
    pub Reach-Replied :
        (started : ℕ) (conn : AsyncHttpConnection) (input s : Text) (xs : Exchanges) (rest : Text)
        → Reach handler contents peer (request_read started ∷ []) conn input
        → s ≢ []
        → length s < bufsize
        → conn.buffer ++ s ≡ frames_text xs ++ rest
        → All (Continued blocking peer) xs
        → find_first crlfcrlf rest ≡ none
        → Replied conn.wire xs rest (input ++ s)
    unfolding notify_request_read
    Reach-Replied started conn input s xs rest r full small e good miss =
        let known =
          (Reach-Inv handler contents blocking peer agrees (request_read started ∷ []) conn input
            r).1.address in
        let (next, run, lead) =
          frames-Leads xs rest (conn.buffer ++ s) (input ++ s) conn e good miss known in
        lead (
          reads now started (bytes s) (listed next) r (λ e. cc)
            (rw
              (
                notify_read-bytes crlfcrlf conn.buffer s full small,
                run,
                leaves-listed (request_read started) next,
              )
              refl))
