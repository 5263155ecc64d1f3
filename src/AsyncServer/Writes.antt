-- ===== src/AsyncServer/Writes.antt =====
-- A write of a response, and what follows it, keep what holds of a connection.
use cse124_httpserver.Base.{
  ℕ, ◌-◌, ◌≡◌, ◌≢◌, inl, inr, refl, sym, ap, ◌∙◌, Bool, true, false, Bool-cases, Option, none, some,
  List, [], ◌∷◌, ◌++◌, length, All, All-append, Text, Result, ok,
}
use cse124_httpserver.Http.{HttpRequest, HttpResponse}
use cse124_httpserver.Connection.{says_close}
use cse124_httpserver.AsyncConnection.{Send, send_fails, WritePollable, try_write}
use cse124_httpserver.AsyncConnection.Writing.{
  AcceptedBy, HasSent, try_write-HasSent, try_write-message, try_write-whole,
}
use cse124_httpserver.AsyncHandlers.{Task}
use cse124_httpserver.AsyncHandlers.Blocking.{supply}
use cse124_httpserver.AsyncServer.{
  AsyncHttpConnection, Pending, response_write, on_written, notify_response_write, after_write,
}
use cse124_httpserver.Connection.Frames.{Exchanges, replies_text, Continued, Ended-snoc}
use cse124_httpserver.AsyncServer.Exchanges.{frames_text-snoc, replies_text-snoc}
use cse124_httpserver.AsyncServer.Invariant.{
  Between, Replying, GoesOn, At, Inv, Good, Between-Settled,
}
use cse124_httpserver.AsyncServer.Callbacks.{handle_http_connection-Good}
use cse124_httpserver.AsyncServer.Events.{step-Inv, kept-Inv}

module _ (handler : HttpRequest → Task HttpResponse) (contents : Text → Text)
    (blocking : HttpRequest → Result HttpResponse) (peer : ℕ)
    (agrees : (request : HttpRequest) → supply contents (handler request) ≡ blocking request) where
  -- The whole response has been sent.
  replied-Between :
      (xs : Exchanges) (text : Text) (response : HttpResponse) (w w' : WritePollable)
      (callback : Option HttpRequest) (conn : AsyncHttpConnection) (input : Text)
      → Replying handler contents blocking peer xs text response w callback conn input
      → w'.wire ≡ replies_text xs ++ w.message
      → Between handler contents blocking peer
          (xs ++ (text, response) ∷ [])
          conn.buffer
          (record conn { wire = w'.wire })
          input
  replied-Between xs text response w w' callback conn input r whole = record {
    address = r.address;
    received = r.received ∙ sym (frames_text-snoc xs text response conn.buffer);
    replied =
        whole
        ∙ ap (◌++◌ (replies_text xs)) r.whole_message
        ∙ sym (replies_text-snoc xs text response);
    answers = Ended-snoc blocking peer xs (text, response) r.continued r.answered;
  }

  on_written-Good :
      (now : ℕ) (xs : Exchanges) (callback : Option HttpRequest) (conn : AsyncHttpConnection)
      (input : Text)
      → Between handler contents blocking peer xs conn.buffer conn input
      → ((request : HttpRequest)
          → callback ≡ some request
          → says_close request ≡ false
          → All (Continued blocking peer) xs)
      → let after = on_written handler now conn callback in
        Good handler contents blocking peer after.0 after.1 input
  unfolding on_written
  on_written-Good now xs none conn input b on =
      Between-Settled handler contents blocking peer xs _ conn input b
  on_written-Good now xs (some request) conn input b on = elim (Bool-cases (says_close request)) [
    | inl close ↦ rw close (Between-Settled handler contents blocking peer xs _ conn input b)
    | inr stay ↦ rw stay (
        handle_http_connection-Good handler contents blocking peer agrees now xs conn input b
          (on request refl stay))
  ]

  going :
      (text : Text) (response : HttpResponse) (callback : Option HttpRequest)
      (request : HttpRequest)
      → GoesOn handler contents blocking peer callback text response
      → callback ≡ some request
      → says_close request ≡ false
      → Continued blocking peer (text, response)
  going text response none request on e stays = cc
  going text response (some request') request on e stays =
      let same : request' ≡ request = cc in on (rw same stays)

  after_write-Inv :
      (now : ℕ) (xs : Exchanges) (text : Text) (response : HttpResponse) (w w' : WritePollable)
      (done : Bool) (callback : Option HttpRequest) (ps : List Pending)
      (conn conn' : AsyncHttpConnection) (input : Text)
      → Replying handler contents blocking peer xs text response w callback conn input
      → w'.message ≡ w.message
      → HasSent (replies_text xs) w'
      → (done ≡ true → w'.wire ≡ replies_text xs ++ w.message)
      → after_write handler now callback conn (done, w') ≡ (ok ps, conn')
      → Inv handler contents blocking peer ps conn' input
  after_write-Inv now xs text response w w' true callback ps conn conn' input r same h whole e =
      let after = record conn { wire = w'.wire } in
      step-Inv handler contents blocking peer agrees
        (response_write (record w' { done = true }) callback)
        (on_written handler now after callback) input ps conn'
        (on_written-Good now (xs ++ (text, response) ∷ []) callback after input
          (replied-Between xs text response w w' callback conn input r (whole refl))
          (λ request asked stays.
            All-append (Continued blocking peer) xs ((text, response) ∷ []) r.continued
              (going text response callback request r.goes_on asked stays, tt)))
        e
  after_write-Inv now xs text response w w' false callback ps conn conn' input r same h whole e =
      kept-Inv handler contents blocking peer agrees
        (response_write (record w' { done = false }) callback) (record conn { wire = w'.wire })
        conn' input ps
        (
          xs,
          text,
          response,
          record {
            address = r.address;
            received = r.received;
            answered = r.answered;
            continued = r.continued;
            goes_on = r.goes_on;
            whole_message = same ∙ r.whole_message;
            has_sent = h;
          },
        )
        e

  pub writes-Inv :
      (now : ℕ) (w : WritePollable) (callback : Option HttpRequest) (sends : List Send)
      (ps : List Pending) (conn conn' : AsyncHttpConnection) (input : Text)
      → At handler contents blocking peer (response_write w callback) conn input
      → AcceptedBy (length w.message - w.total_sent) sends
      → All (λ s. s ≢ send_fails) sends
      → notify_response_write handler now w callback sends conn ≡ (ok ps, conn')
      → Inv handler contents blocking peer ps conn' input
  unfolding notify_response_write
  writes-Inv now w callback sends ps conn conn' input (xs, text, response, r) small good e =
      let w0 = record w { wire = conn.wire } in
      let after = try_write sends w0 in
      after_write-Inv now xs text response w after.1 after.0 callback ps conn conn' input r
        (try_write-message sends w0) (try_write-HasSent (replies_text xs) sends w0 small r.has_sent)
        (λ done.
          try_write-whole (replies_text xs) sends w0 after.1 small good r.has_sent
            (ap (λ b. (b, after.1)) done))
        e
