-- ===== src/AsyncServer/Events.antt =====
-- What happens to a connection of the asynchronous server keeps what holds of it.
use cse124_httpserver.Base.{
  ℕ, ◌≡◌, ◌≢◌, inl, inr, refl, ap, subst, ◌∙◌, true, false, Bool-cases, Option, none, some, List,
  [], ◌∷◌, ◌++◌, append_assoc, length, arith, ltb, Text, Result, ok, throw, undefined, no_fuel,
  connection_error,
}
use cse124_httpserver.Http.{HttpRequest, HttpResponse}
use cse124_httpserver.Connection.{Recv, bytes, would_block, failed, crlfcrlf}
use cse124_httpserver.AsyncConnection.{bufsize}
use cse124_httpserver.AsyncConnection.Reading.{try_read, notify_read}
use cse124_httpserver.AsyncConnection.Reading.Blocking.{notify_read-bytes}
use cse124_httpserver.AsyncFiles.{
  FileRead, got, read_blocks, read_fails, FileReadPollable, file_bufsize, try_read_file,
  notify_file,
}
use cse124_httpserver.AsyncHandlers.{Task}
use cse124_httpserver.AsyncHandlers.Blocking.{supply}
use cse124_httpserver.AsyncServer.{
  AsyncHttpConnection, Pending, request_read, file_read, run_task, handle_http_connection, leaves,
  notify_request_read, notify_file_read,
}
use cse124_httpserver.AsyncServer.Steps.{listed, text_of, IsReadOf, fresh}
use cse124_httpserver.Connection.Frames.{Exchanges, frames_text}
use cse124_httpserver.AsyncServer.Invariant.{Between, At, Inv, Good, Between-Settled, run_task-Good}
use cse124_httpserver.AsyncServer.Callbacks.{take-Good, handle_http_connection-Good}

module _ (handler : HttpRequest → Task HttpResponse) (contents : Text → Text)
    (blocking : HttpRequest → Result HttpResponse) (peer : ℕ)
    (agrees : (request : HttpRequest) → supply contents (handler request) ≡ blocking request) where
  -- A pollable that is done leaves what its callback returned.
  leaves-Inv :
      (p : Pending) (next : Result (Option Pending)) (conn : AsyncHttpConnection) (input : Text)
      (ps : List Pending)
      → Good handler contents blocking peer next conn input
      → leaves handler true p next ≡ ok ps
      → Inv handler contents blocking peer ps conn input
  leaves-Inv p (ok none) conn input ps g e = let same : [] ≡ ps = cc in rw (← same) g
  leaves-Inv p (ok (some q)) conn input ps g e = let same : q ∷ [] ≡ ps = cc in rw (← same) g
  leaves-Inv p (throw exception) conn input ps g e = let same : [] ≡ ps = cc in rw (← same) g
  leaves-Inv p undefined conn input ps g e = cc
  leaves-Inv p no_fuel conn input ps g e = cc

  pub step-Inv :
      (p : Pending) (r : Result (Option Pending) × AsyncHttpConnection) (input : Text)
      (ps : List Pending) (conn' : AsyncHttpConnection)
      → Good handler contents blocking peer r.0 r.1 input
      → ◌≡◌ {A = Result (List Pending) × AsyncHttpConnection}
          (leaves handler true p r.0, r.1)
          (ok ps, conn')
      → Inv handler contents blocking peer ps conn' input
  step-Inv p r input ps conn' g e =
      subst (λ c. Inv handler contents blocking peer ps c input) (ap (λ x. x.1) e)
        (leaves-Inv p r.0 r.1 input ps g (ap (λ x. x.0) e))

  -- A pollable that stays.
  pub kept-Inv :
      (p : Pending) (conn conn' : AsyncHttpConnection) (input : Text) (ps : List Pending)
      → At handler contents blocking peer p conn input
      → ◌≡◌ {A = Result (List Pending) × AsyncHttpConnection} (ok (p ∷ []), conn) (ok ps, conn')
      → Inv handler contents blocking peer ps conn' input
  kept-Inv p conn conn' input ps h e = step-Inv p (ok (some p), conn) input ps conn' h e

  -- More text has come.
  Between-more :
      (xs : Exchanges) (conn : AsyncHttpConnection) (input s : Text)
      → Between handler contents blocking peer xs conn.buffer conn input
      → Between handler contents blocking peer xs (conn.buffer ++ s) conn (input ++ s)
  Between-more xs conn input s b = record {
    address = b.address;
    received = ap (◌++ s) b.received ∙ append_assoc (frames_text xs) conn.buffer s;
    replied = b.replied;
    answers = b.answers;
  }

  pub accepts-Inv :
      (now : ℕ) (next : Option Pending) (conn : AsyncHttpConnection)
      → handle_http_connection handler now (fresh peer) ≡ (ok next, conn)
      → Inv handler contents blocking peer (listed next) conn []
  accepts-Inv now next conn e =
      let good =
        handle_http_connection-Good handler contents blocking peer agrees now [] (fresh peer) []
          (record { address = refl; received = refl; replied = refl; answers = tt }) tt in
      subst (λ r. Good handler contents blocking peer r.0 r.1 []) e good

  pub reads-Inv :
      (now started : ℕ) (received : Recv) (ps : List Pending) (conn conn' : AsyncHttpConnection)
      (input : Text)
      → At handler contents blocking peer (request_read started) conn input
      → received ≢ would_block
      → notify_request_read handler now started received conn ≡ (ok ps, conn')
      → Inv handler contents blocking peer ps conn' (input ++ text_of received)
  unfolding notify_request_read notify_read try_read
  reads-Inv now started would_block ps conn conn' input (xs, b, missing, before) comes e =
      absurd (comes refl)
  reads-Inv now started failed ps conn conn' input (xs, b, missing, before) comes e =
      step-Inv (request_read started) (throw connection_error, conn) (input ++ []) ps conn'
        (Between-Settled handler contents blocking peer xs _ conn _
          (Between-more xs conn input [] b))
        e
  reads-Inv now started (bytes []) ps conn conn' input (xs, b, missing, before) comes e =
      step-Inv (request_read started) (ok none, conn) (input ++ []) ps conn'
        (Between-Settled handler contents blocking peer xs _ conn _
          (Between-more xs conn input [] b))
        e
  reads-Inv now started (bytes (c ∷ s)) ps conn conn' input (xs, b, missing, before) comes e =
      elim (Bool-cases (ltb (length (c ∷ s)) bufsize)) [
        | inl small ↦
            step-Inv (request_read started) _ (input ++ (c ∷ s)) ps conn'
              (take-Good handler contents blocking peer agrees now xs (conn.buffer ++ (c ∷ s)) conn
                (input ++ (c ∷ s)) (Between-more xs conn input (c ∷ s) b) before)
              (rw (notify_read-bytes crlfcrlf conn.buffer (c ∷ s) (λ x. cc) (ground arith)) at e)
        | inr full ↦ let never = ap (λ x. x.0) (rw full at e) in absurd cc
      ]

  pub reads_page-Inv :
      (now : ℕ) (p : FileReadPollable) (k : Text → Task HttpResponse) (request : HttpRequest)
      (r : FileRead) (ps : List Pending) (conn conn' : AsyncHttpConnection) (input : Text)
      → At handler contents blocking peer (file_read p k request) conn input
      → IsReadOf (contents p.file_path) p r
      → notify_file_read handler now p k request r conn ≡ (ok ps, conn')
      → Inv handler contents blocking peer ps conn' input
  unfolding notify_file_read notify_file try_read_file
  reads_page-Inv now p k request (got []) ps conn conn' input (xs, text, a, h) whole e =
      let good =
        run_task-Good handler contents blocking peer now xs text request (k p.buffer) conn input a
          (rw whole h) in
      step-Inv (file_read (record p { done = true }) k request)
        (run_task now conn request (k p.buffer), conn) input ps conn' good e
  reads_page-Inv now p k request (got (c ∷ s)) ps conn conn' input (xs, text, a, h) whole e =
      elim (Bool-cases (ltb (length (c ∷ s)) file_bufsize)) [
        | inl small ↦
            kept-Inv (file_read (record p { buffer = p.buffer ++ (c ∷ s); done = false }) k request)
              conn conn' input ps (xs, text, a, h) (rw small at e)
        | inr full ↦ let never = ap (λ x. x.0) (rw full at e) in absurd cc
      ]
  reads_page-Inv now p k request read_blocks ps conn conn' input (xs, text, a, h) whole e =
      kept-Inv (file_read (record p { done = false }) k request) conn conn' input ps
        (xs, text, a, h) e
  reads_page-Inv now p k request read_fails ps conn conn' input (xs, text, a, h) whole e =
      kept-Inv (file_read (record p { done = false }) k request) conn conn' input ps
        (xs, text, a, h) e
