-- ===== src/Connection/Replies.antt =====
-- What `handle_connection` writes for a single frame, on each of its branches.
use cse124_httpserver.Base.{
  ℕ, zero, suc, ◌<◌, ◌≡◌, ◌⊎◌, inl, inr, refl, ap, ◌∙◌, Bool, true, false, not, Bool-cases, none,
  List, [], ◌++◌, arith, Text, codes, find_first, Exception, http_request_parse_error,
  connection_closed, Result, ok, throw, undefined, no_fuel, ◌>>=◌,
}
use cse124_httpserver.Http.{
  HttpRequest, HttpResponse, serialize, pack_response, parse_request_frame, has_header,
  bad_request_response, internal_server_error_response,
}
use cse124_httpserver.Connection.{
  Connection, crlfcrlf, read_request, write_response, says_close, answer, serve_loop, catch_all,
  handle_connection,
}
use cse124_httpserver.Connection.Chunks.{chunks, Delivers, whole, read_until-closed}
use cse124_httpserver.Connection.Answers.{caught, catch_answer, answer_request, answer_for}
use cse124_httpserver.Connection.Frames.{
  IsFrame, write-sends, read_request-ok, read_request-throw, Cut, read_until-Cut, serve_loop-again,
  serve_loop-throw, handle_connection-closed,
}

-- The call returned, and this was written behind what was written before.
abbrev pub Wrote : Connection → HttpResponse → Result (Unit {0}) × Connection → Type 0
Wrote c response after =
    (after.0 ≡ ok tt) × (after.1.written ≡ c.written ++ serialize (pack_response response))

abbrev pub wrote : (c : Connection) (response : HttpResponse) → Connection
wrote c response = record c { written = c.written ++ serialize (pack_response response) }

module _ (handler : HttpRequest → Result HttpResponse) where
  write_response-sends :
      (response : HttpResponse) (c : Connection)
      → c.sends ≡ []
      → write_response response c ≡ (ok tt, wrote c response)
  unfolding write_response
  write_response-sends response c free = write-sends (serialize (pack_response response)) c free

  catch_all-Wrote :
      (e : Exception) (c : Connection) (response : HttpResponse)
      → c.sends ≡ []
      → caught e ≡ ok response
      → catch_all handler (throw e, c) ≡ (ok tt, wrote c response)
  unfolding catch_all
  catch_all-Wrote http_request_parse_error c response free h =
      let same : bad_request_response ≡ response = cc in
      rw (← same) (write_response-sends bad_request_response c free)
  catch_all-Wrote connection_closed c response free h = cc
  catch_all-Wrote e c response free h =
      let same : internal_server_error_response ≡ response = cc in
      rw (← same) (write_response-sends internal_server_error_response c free)

  serve_loop-stop :
      (f : ℕ) (c : Connection) {r : HttpRequest} {c1 c2 : Connection}
      → read_request c ≡ (ok r, c1)
      → answer handler r c1 ≡ (ok false, c2)
      → serve_loop handler (suc f) c ≡ (ok tt, c2)
  serve_loop-stop f c run e = unfold serve_loop in rw (run, e) refl

  serve_loop-answer_throw :
      (f : ℕ) (c : Connection) {r : HttpRequest} {e : Exception} {c1 c2 : Connection}
      → read_request c ≡ (ok r, c1)
      → answer handler r c1 ≡ (throw e, c2)
      → serve_loop handler (suc f) c ≡ (throw e, c2)
  serve_loop-answer_throw f c run h = unfold serve_loop in rw (run, h) refl

  handle_connection-ok :
      (fuel : ℕ) (c : Connection) {c' : Connection}
      → serve_loop handler fuel c ≡ (ok tt, c')
      → handle_connection handler fuel c ≡ (ok tt, c')
  handle_connection-ok fuel c run = unfold handle_connection catch_all in rw run refl

  handle_connection-throw :
      (fuel : ℕ) (c c1 : Connection) (e : Exception) (response : HttpResponse)
      → serve_loop handler fuel c ≡ (throw e, c1)
      → c1.sends ≡ []
      → caught e ≡ ok response
      → handle_connection handler fuel c ≡ (ok tt, wrote c1 response)
  handle_connection-throw fuel c c1 e response run free h =
      unfold handle_connection in ap (catch_all handler) run ∙ catch_all-Wrote e c1 response free h

  -- The request was read, and sends are whole.
  pub record Ready (c c1 : Connection) (request : HttpRequest) : Type 0 where
    pub run : read_request c ≡ (ok request, c1)
    pub free : c1.sends ≡ []

  -- After a round that writes a response, the server returns or goes on.
  abbrev pub Replies : ℕ → Connection → Connection → HttpResponse → Type 0
  Replies f c c1 response =
      (handle_connection handler (suc f) c ≡ (ok tt, wrote c1 response))
      ⊎ (handle_connection handler (suc f) c ≡ handle_connection handler f (wrote c1 response))

  answer-ok :
      (c : Connection) (request : HttpRequest) (a : HttpResponse) (close : Bool)
      → has_header request.headers (codes "Host") ≡ true
      → handler request ≡ ok a
      → c.sends ≡ []
      → says_close request ≡ close
      → answer handler request c ≡ (ok (not close), wrote c a)
  unfolding answer write_response
  answer-ok c request a close named e free h =
      rw (named, e, write-sends (serialize (pack_response a)) c free, h) refl

  answer-missing :
      (c : Connection) (request : HttpRequest)
      → has_header request.headers (codes "Host") ≡ false
      → c.sends ≡ []
      → answer handler request c ≡ (ok false, wrote c bad_request_response)
  unfolding answer write_response
  answer-missing c request missing free =
      rw (missing, write-sends (serialize (pack_response bad_request_response)) c free) refl

  answered-Replies :
      (f : ℕ) (c c1 : Connection) (request : HttpRequest) (a : HttpResponse)
      → Ready c c1 request
      → has_header request.headers (codes "Host") ≡ true
      → handler request ≡ ok a
      → Replies f c c1 a
  answered-Replies f c c1 request a r named e = elim (Bool-cases (says_close request)) [
    | inl close ↦ inl (
        handle_connection-ok (suc f) c
          (serve_loop-stop f c r.run (answer-ok c1 request a true named e r.free close)))
    | inr stay ↦ inr (
        unfold handle_connection in
        ap (catch_all handler)
          (serve_loop-again handler f c r.run (answer-ok c1 request a false named e r.free stay)))
  ]

  handled-Replies :
      (f : ℕ) (c c1 : Connection) (request : HttpRequest) (result : Result HttpResponse)
      (response : HttpResponse)
      → Ready c c1 request
      → has_header request.headers (codes "Host") ≡ true
      → handler request ≡ result
      → catch_answer result ≡ ok response
      → Replies f c c1 response
  handled-Replies f c c1 request (ok a) response r named e h =
      answered-Replies f c c1 request response r named (e ∙ h)
  handled-Replies f c c1 request (throw exception) response r named e h = inl (
      handle_connection-throw (suc f) c c1 exception response
        (serve_loop-answer_throw f c r.run (unfold answer in rw (named, e) refl)) r.free h)
  handled-Replies f c c1 request undefined response r named e h = cc
  handled-Replies f c c1 request no_fuel response r named e h = cc

  requested-Replies :
      (f : ℕ) (c c1 : Connection) (request : HttpRequest) (response : HttpResponse)
      → Ready c c1 request
      → catch_answer (answer_request handler request) ≡ ok response
      → Replies f c c1 response
  requested-Replies f c c1 request response r h =
      elim (Bool-cases (has_header request.headers (codes "Host"))) [
        | inl named ↦
            handled-Replies f c c1 request (handler request) response r named refl (rw named at h)
        | inr missing ↦
            let h' : ok bad_request_response ≡ ok response = rw missing at h in
            let same : bad_request_response ≡ response = cc in
            rw (← same) (
              inl (
                handle_connection-ok (suc f) c
                  (serve_loop-stop f c r.run (answer-missing c1 request missing r.free))))
      ]

  parsed-Replies :
      (f : ℕ) (c c1 : Connection) (text : Text) (result : Result HttpRequest)
      (response : HttpResponse)
      → ((request : HttpRequest)
          → result ≡ ok request
          → Ready c c1 (record request { remote_ip = c.peer }))
      → ((e : Exception) → result ≡ throw e → read_request c ≡ (throw e, c1))
      → c1.sends ≡ []
      → catch_answer
          (result >>= λ request. answer_request handler (record request { remote_ip = c.peer }))
        ≡ ok response
      → Replies f c c1 response
  parsed-Replies f c c1 text (ok request) response ready fails free h =
      requested-Replies f c c1 (record request { remote_ip = c.peer }) response (ready request refl)
        h
  parsed-Replies f c c1 text (throw exception) response ready fails free h = inl (
      handle_connection-throw (suc f) c c1 exception response
        (serve_loop-throw handler f c (fails exception refl)) free h)
  parsed-Replies f c c1 text undefined response ready fails free h = cc
  parsed-Replies f c c1 text no_fuel response ready fails free h = cc

  -- A frame at the start of what a connection brings is answered in the next round.
  pub answer_for-Replies :
      (f : ℕ) (c : Connection) (text rest : Text) (response : HttpResponse) (cut : Cut c text rest)
      → c.sends ≡ []
      → answer_for handler c.peer text ≡ ok response
      → Replies f c (record c { buffer = cut.0; reads = chunks cut.1 }) response
  unfolding answer_for
  answer_for-Replies f c text rest response (buffer, later, run, full, left) free h =
      let c1 = record c { buffer = buffer; reads = chunks later } in
      parsed-Replies f c c1 text (parse_request_frame (record { contents = text })) response
        (λ request e. record { run = read_request-ok c text run e; free = free })
        (λ exception e. unfold read_request in rw (run, e) refl) free h

  -- Where a connection brings one frame, cut into non-empty chunks in any way, and then some text
  -- without a blank line, all sends are whole and there are two rounds or more, `handle_connection`
  -- returns and writes the answer to the frame, and nothing else: 400 if the frame does not parse or
  -- names no host, the handler's response if it gives one, and for an exception 400 if it is a parse
  -- error and 500 if it is any other but ConnectionClosed.
  pub handle_connection-answer_for :
      (text rest : Text) (response : HttpResponse) (c : Connection) (cs : List Text) (fuel : ℕ)
      → 1 < fuel
      → Delivers c cs
      → c.sends ≡ []
      → whole c cs ≡ text ++ (crlfcrlf ++ rest)
      → IsFrame text
      → find_first crlfcrlf rest ≡ none
      → answer_for handler c.peer text ≡ ok response
      → Wrote c response (handle_connection handler fuel c)
  handle_connection-answer_for text rest response c cs zero more comes free e frame ends h =
      absurd (omega arith)
  handle_connection-answer_for text rest response c cs (suc zero) more comes free e frame ends h =
      absurd (omega arith)
  handle_connection-answer_for text rest response c cs (suc (suc f)) more comes free e frame ends
        h =
      let cut = read_until-Cut c cs text rest comes frame e in
      let c1 = record c { buffer = cut.0; reads = chunks cut.1 } in
      let (buffer, later, run, full, left) = cut in
      elim (answer_for-Replies (suc f) c text rest response cut free h) [
        | inl stops ↦ (ap (λ x. x.0) stops, ap (λ x. x.1.written) stops)
        | inr goes_on ↦
            let closed =
              read_until-closed crlfcrlf (wrote c1 response) later (refl, full) (rw left ends) in
            let all =
              goes_on
              ∙ handle_connection-closed handler (suc f) (wrote c1 response) (
                  serve_loop-throw handler f (wrote c1 response)
                    (read_request-throw (wrote c1 response) closed)) in
            (ap (λ x. x.0) all, ap (λ x. x.1.written) all)
      ]
