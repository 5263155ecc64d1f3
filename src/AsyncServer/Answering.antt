-- ===== src/AsyncServer/Answering.antt =====
-- A schedule that reads the files a task asks for and writes its response, byte by byte.
use cse124_httpserver.Base.{
  ℕ, zero, suc, ◌+◌, ◌-◌, ◌≡◌, ◌≢◌, inl, inr, refl, sym, ap, ◌∙◌, true, false, Bool-cases, Option,
  none, some, List, [], ◌∷◌, ◌++◌, append_assoc, append-nil, length, All, arith, ltb, Text, ok,
}
use cse124_httpserver.Http.{HttpRequest, HttpResponse, serialize, pack_response}
use cse124_httpserver.Connection.{says_close}
use cse124_httpserver.AsyncConnection.{Send, sent, send_fails, WritePollable, took, try_write}
use cse124_httpserver.AsyncConnection.Writing.{AcceptedBy, try_write-whole}
use cse124_httpserver.AsyncFiles.{got, FileReadPollable, read_contents, try_read_file, notify_file}
use cse124_httpserver.AsyncHandlers.{Task, returns, throws, faults, starves, reads_file}
use cse124_httpserver.AsyncHandlers.Blocking.{supply}
use cse124_httpserver.AsyncServer.{
  AsyncHttpConnection, Pending, file_read, write_response_async, run_task, handle_http_connection,
  on_written, after_write, notify_file_read, notify_response_write,
}
use cse124_httpserver.AsyncServer.Steps.{listed, Reach, reads_page, writes}

-- Sends of a byte each, until the message is sent.
bytewise : ℕ → List Send
bytewise zero = sent 0 ∷ []
bytewise (suc n) = sent 1 ∷ bytewise n

bytewise-AcceptedBy : (n : ℕ) → AcceptedBy n (bytewise n)
unfolding bytewise
bytewise-AcceptedBy zero = (omega arith, tt)
bytewise-AcceptedBy (suc n) =
    let left : suc n - 1 ≡ n = omega arith in (omega arith, rw left (bytewise-AcceptedBy n))

bytewise-good : (n : ℕ) → All (λ s. s ≢ send_fails) (bytewise n)
unfolding bytewise
bytewise-good zero = ((λ e. cc), tt)
bytewise-good (suc n) = ((λ e. cc), bytewise-good n)

try_write-bytewise :
    (n : ℕ) (w : WritePollable)
    → length w.message ≡ w.total_sent + n
    → (try_write (bytewise n) w).0 ≡ true
unfolding bytewise try_write
try_write-bytewise zero w e =
    let all : ltb (w.total_sent + 0) (length w.message) ≡ false = ground arith in rw all refl
try_write-bytewise (suc n) w e = elim (Bool-cases (ltb (w.total_sent + 1) (length w.message))) [
  | inl more ↦ rw more (try_write-bytewise n (took w 1) (omega arith))
  | inr all ↦ rw all refl
]

module _ (handler : HttpRequest → Task HttpResponse) (contents : Text → Text) (peer now : ℕ) where
  -- A file comes byte by byte.
  read_bytes :
      (s before : Text) (p : FileReadPollable) (k : Text → Task HttpResponse)
      (request : HttpRequest) (conn : AsyncHttpConnection) (input : Text)
      → Reach handler contents peer
          (file_read (record p { buffer = before; done = false }) k request ∷ [])
          conn
          input
      → Reach handler contents peer
          (file_read (record p { buffer = before ++ s; done = false }) k request ∷ [])
          conn
          input
  unfolding notify_file_read notify_file try_read_file
  read_bytes [] before p k request conn input r = rw (append-nil before) r
  read_bytes (c ∷ s) before p k request conn input r =
      let r' =
        reads_page now (record p { buffer = before; done = false }) k request (got (c ∷ []))
          (file_read (record p { buffer = before ++ c ∷ []; done = false }) k request ∷ []) r tt
          refl in
      let later = read_bytes s (before ++ c ∷ []) p k request conn input r' in
      rw (append_assoc before (c ∷ []) s) at later

  -- A task that comes to a response starts with a pollable.
  pub task_starts :
      (conn : AsyncHttpConnection) (request : HttpRequest) (t : Task HttpResponse)
      (response : HttpResponse)
      → supply contents t ≡ ok response
      → (p : Pending) × (run_task now conn request t ≡ ok (some p))
  task_starts conn request (returns a) response e = (_, refl)
  task_starts conn request (throws exception) response e = cc
  task_starts conn request faults response e = cc
  task_starts conn request starves response e = cc
  task_starts conn request (reads_file path k) response e = (_, refl)

  -- The pollables of the task lead to the one that writes the response.
  pub task_answers :
      (conn : AsyncHttpConnection) (request : HttpRequest) (t : Task HttpResponse)
      (response : HttpResponse) (p : Pending) (input : Text)
      → supply contents t ≡ ok response
      → run_task now conn request t ≡ ok (some p)
      → Reach handler contents peer (p ∷ []) conn input
      → Reach handler contents peer
          (write_response_async now conn response (some request) ∷ [])
          conn
          input
  unfolding notify_file_read notify_file try_read_file
  task_answers conn request (returns a) response p input e started r =
      let same : p ≡ write_response_async now conn response (some request) = cc in rw same at r
  task_answers conn request (throws exception) response p input e started r = cc
  task_answers conn request faults response p input e started r = cc
  task_answers conn request starves response p input e started r = cc
  task_answers conn request (reads_file path k) response p input e started r =
      let same : p ≡ file_read (read_contents path now) k request = cc in
      let full =
        read_bytes (contents path) [] (read_contents path now) k request conn input
          (rw same at r) in
      let (q, next) = task_starts conn request (k (contents path)) response e in
      task_answers conn request (k (contents path)) response q input e next (
        reads_page now (record (read_contents path now) { buffer = contents path }) k request
          (got []) (q ∷ []) full refl (rw next refl))

  after_written :
      (conn conn' : AsyncHttpConnection) (request : HttpRequest) (w : WritePollable)
      (next : Option Pending) (wire : Text)
      → says_close request ≡ false
      → w.wire ≡ wire
      → handle_http_connection handler now (record conn { wire = wire }) ≡ (ok next, conn')
      → after_write handler now (some request) conn (true, w) ≡ (ok (listed next), conn')
  unfolding on_written
  after_written conn conn' request w none wire stays whole e = rw (whole, stays, e) refl
  after_written conn conn' request w (some p) wire stays whole e = rw (whole, stays, e) refl

  -- A response is written, and the next frame is taken from the buffer.
  pub write_answers :
      (conn conn' : AsyncHttpConnection) (request : HttpRequest) (response : HttpResponse)
      (next : Option Pending) (input : Text)
      → says_close request ≡ false
      → handle_http_connection handler now
          (record conn { wire = conn.wire ++ serialize (pack_response response) })
        ≡ (ok next, conn')
      → Reach handler contents peer
          (write_response_async now conn response (some request) ∷ [])
          conn
          input
      → Reach handler contents peer (listed next) conn' input
  unfolding notify_response_write
  write_answers conn conn' request response next input stays e r =
      let message = serialize (pack_response response) in
      let w : WritePollable = record {
        message = message;
        total_sent = 0;
        done = false;
        started = now;
        wire = conn.wire;
      } in
      let sends = bytewise (length message - 0) in
      let small : AcceptedBy (length message - 0) sends =
        bytewise-AcceptedBy (length message - 0) in
      let good = bytewise-good (length message - 0) in
      let done = try_write-bytewise (length message - 0) w (omega arith) in
      let after = (try_write sends w).1 in
      let whole : after.wire ≡ conn.wire ++ message =
        try_write-whole conn.wire sends w after small good (omega arith, sym (append-nil conn.wire))
          (ap (λ b. (b, after)) done) in
      writes now w (some request) sends (listed next) r small good (
        ap (after_write handler now (some request) conn) (ap (λ b. (b, after)) done)
        ∙ after_written conn conn' request after next _ stays whole e)
