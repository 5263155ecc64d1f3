-- ===== src/AsyncServer/Callbacks.antt =====
-- The callbacks of a connection of the asynchronous server keep what holds of it.
use cse124_httpserver.Base.{
  ℕ, ◌+◌, ◌≡◌, inl, inr, refl, sym, ap, ◌∙◌, false, Bool-cases, none, Option-cases, ◌++◌, length,
  take, drop, drop-drop, All, Text, codes, Result, ok, throw, undefined, no_fuel, ◌>>=◌, find_first,
  find_first-split, find_first_end,
}
use cse124_httpserver.Http.{
  HttpRequest, HttpResponse, parse_request_frame, has_header, bad_request_response,
}
use cse124_httpserver.Connection.{crlfcrlf, says_close}
use cse124_httpserver.AsyncConnection.Reading.{take_content, read_until_async}
use cse124_httpserver.AsyncConnection.Reading.Blocking.{take_content-none, take_content-some}
use cse124_httpserver.AsyncHandlers.{Task}
use cse124_httpserver.AsyncHandlers.Blocking.{supply}
use cse124_httpserver.AsyncServer.{
  AsyncHttpConnection, catch_request, on_request, on_content, continue_with, handle_http_connection,
}
use cse124_httpserver.Connection.Answers.{catch_answer, answer_request, answer_for}
use cse124_httpserver.Connection.Frames.{Exchanges, frames_text, Continued}
use cse124_httpserver.AsyncServer.Invariant.{Between, Asked, Good, thrown-Good, task-Good, write-At}

module _ (handler : HttpRequest → Task HttpResponse) (contents : Text → Text)
    (blocking : HttpRequest → Result HttpResponse) (peer : ℕ)
    (agrees : (request : HttpRequest) → supply contents (handler request) ≡ blocking request) where
  request-Good :
      (now : ℕ) (xs : Exchanges) (text : Text) (request : HttpRequest) (conn : AsyncHttpConnection)
      (input : Text)
      → Asked handler contents blocking peer xs text conn input
      → parse_request_frame (record { contents = text }) ≡ ok request
      → answer_for blocking peer text
        ≡ catch_answer (answer_request blocking (record request { remote_ip = conn.remote_ip }))
      → Good handler contents blocking peer
          (catch_request now conn
            (on_request handler now conn (record request { remote_ip = conn.remote_ip })))
          conn
          input
  unfolding on_request says_close
  request-Good now xs text request conn input a parsed h =
      let request' = record request { remote_ip = conn.remote_ip } in
      elim (Bool-cases (has_header request.headers (codes "Host"))) [
        | inl named ↦
            let on : (response : HttpResponse)
                → supply contents (handler request') ≡ ok response
                → says_close request' ≡ false
                → Continued blocking peer (text, response) =
              λ response e stays. (
                request,
                a.1,
                parsed,
                named,
                ap (λ ip. blocking (record request { remote_ip = ip })) (sym a.0.address)
                    ∙ sym (agrees request')
                    ∙ e,
                stays,
              ) in
            rw named (
              task-Good handler contents blocking peer now xs text request' (handler request') conn
                input a (h ∙ rw (named, agrees request') refl) on)
        | inr missing ↦ rw missing (
            write-At handler contents blocking peer now xs text bad_request_response none conn input
              a (h ∙ rw missing refl) tt)
      ]

  parsed-Good :
      (now : ℕ) (xs : Exchanges) (text : Text) (parsed : Result HttpRequest)
      (conn : AsyncHttpConnection) (input : Text)
      → Asked handler contents blocking peer xs text conn input
      → parse_request_frame (record { contents = text }) ≡ parsed
      → answer_for blocking peer text
        ≡ catch_answer (
            parsed >>= λ request.
            answer_request blocking (record request { remote_ip = conn.remote_ip }))
      → Good handler contents blocking peer
          (catch_request now conn (
            parsed >>= λ request.
            on_request handler now conn (record request { remote_ip = conn.remote_ip })))
          conn
          input
  parsed-Good now xs text (ok request) conn input a e h =
      request-Good now xs text request conn input a e h
  parsed-Good now xs text (throw exception) conn input a e h =
      thrown-Good handler contents blocking peer now xs text exception conn input a h
  parsed-Good now xs text undefined conn input a e h = tt
  parsed-Good now xs text no_fuel conn input a e h = tt

  on_content-Good :
      (now : ℕ) (xs : Exchanges) (text : Text) (conn : AsyncHttpConnection) (input : Text)
      → Asked handler contents blocking peer xs text conn input
      → Good handler contents blocking peer (on_content handler now conn text) conn input
  unfolding on_content answer_for
  on_content-Good now xs text conn input a =
      parsed-Good now xs text (parse_request_frame (record { contents = text })) conn input a refl
        (sym (ap (λ ip. answer_for blocking ip text) a.0.address))

  -- The buffer, from which the callbacks take a frame if there is one.
  pub take-Good :
      (now : ℕ) (xs : Exchanges) (buffer : Text) (conn : AsyncHttpConnection) (input : Text)
      → Between handler contents blocking peer xs buffer conn input
      → All (Continued blocking peer) xs
      → let after = continue_with handler now conn (take_content crlfcrlf buffer) in
        Good handler contents blocking peer after.0 after.1 input
  take-Good now xs buffer conn input b before = elim (Option-cases (find_first crlfcrlf buffer)) [
    | inl missing ↦ rw (take_content-none crlfcrlf buffer missing) (
      xs,
      record {
        address = b.address;
        received = b.received;
        replied = b.replied;
        answers = b.answers;
      },
      missing,
      before,
    )
    | inr (j, found) ↦ rw (take_content-some crlfcrlf buffer j found) (
        on_content-Good now xs (take j buffer)
          (record conn { buffer = drop (j + length crlfcrlf) buffer }) input
          (
            record {
              address = b.address;
              received =
                  b.received
                  ∙ ap (◌++◌ (frames_text xs)) (
                      sym (find_first-split crlfcrlf buffer j found)
                      ∙ ap (λ t. take j buffer ++ (crlfcrlf ++ t))
                          (drop-drop 4 j (j + 4) buffer refl));
              replied = b.replied;
              answers = b.answers;
            },
            find_first_end crlfcrlf buffer j found,
            before,
          ))
  ]

  pub handle_http_connection-Good :
      (now : ℕ) (xs : Exchanges) (conn : AsyncHttpConnection) (input : Text)
      → Between handler contents blocking peer xs conn.buffer conn input
      → All (Continued blocking peer) xs
      → let after = handle_http_connection handler now conn in
        Good handler contents blocking peer after.0 after.1 input
  unfolding handle_http_connection read_until_async
  handle_http_connection-Good now xs conn input b before =
      take-Good now xs conn.buffer conn input b before
