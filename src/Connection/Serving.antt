-- ===== src/Connection/Serving.antt =====
-- `HttpServer::serve` with the BlockingHttpConnectionHandler of connection_handlers.cpp. The state is
-- the connections that were handled, as they were left.
use cse124_httpserver.Base.{
  ℕ, zero, suc, ◌<◌, ◌≡◌, refl, ap, ◌∙◌, List, [], ◌∷◌, ◌++◌, append_assoc, append-nil, map, All,
  arith, Text, http_request_parse_error, connection_error, Result, ok, throw,
}
use cse124_httpserver.Http.{HttpRequest, HttpResponse, parse_request_frame}
use cse124_httpserver.Connection.{
  Connection, Sent, sent_failed, crlfcrlf, read_request, write_response, write, send, catch_all,
  handle_connection,
}
use cse124_httpserver.Connection.Accepting.{Accept, accepted, accepts, serve}
use cse124_httpserver.Connection.Chunks.{chunks, Delivers, whole}
use cse124_httpserver.Connection.Frames.{IsFrame, read_until-Cut, serve_loop-throw}

-- `BlockingHttpConnectionHandler::handle_connection`
unfoldable pub handle_blocking :
    (HttpRequest → Result HttpResponse)
    → ℕ
    → Connection
    → List Connection
    → Result (Unit {0}) × List Connection
unfolding handle_connection
handle_blocking handler fuel c handled =
    let after = handle_connection handler fuel c in (after.0, handled ++ after.1 ∷ [])

write_response-fails :
    (handler : HttpRequest → Result HttpResponse) (c : Connection) (sends : List Sent)
    → c.sends ≡ sent_failed ∷ sends
    → catch_all handler (throw http_request_parse_error, c)
      ≡ (throw connection_error, record c { sends = sends })
unfolding catch_all write_response write send
write_response-fails handler c sends fails = rw (fails, send) refl

-- A frame that does not parse, on a connection whose next write fails.
handle_connection-failed_reply :
    (handler : HttpRequest → Result HttpResponse) (fuel : ℕ) (text rest : Text) (c : Connection)
    (cs : List Text) (sends : List Sent)
    → 0 < fuel
    → Delivers c cs
    → c.sends ≡ sent_failed ∷ sends
    → whole c cs ≡ text ++ (crlfcrlf ++ rest)
    → IsFrame text
    → parse_request_frame (record { contents = text }) ≡ throw http_request_parse_error
    → (handle_connection handler fuel c).0 ≡ throw connection_error
handle_connection-failed_reply handler zero text rest c cs sends some_round comes fails e frame
      parsed =
    absurd (omega arith)
handle_connection-failed_reply handler (suc f) text rest c cs sends some_round comes fails e frame
      parsed =
    let (buffer, later, run, full, left) = read_until-Cut c cs text rest comes frame e in
    let c1 = record c { buffer = buffer; reads = chunks later } in
    let failed : read_request c ≡ (throw http_request_parse_error, c1) =
      unfold read_request in rw (run, parsed) refl in
    let all : handle_connection handler (suc f) c
        ≡ (throw connection_error, record c1 { sends = sends }) =
      unfold handle_connection in
      ap (catch_all handler) (serve_loop-throw handler f c failed)
      ∙ write_response-fails handler c1 sends fails in
    ap (λ x. x.0) all

module _ (handler : HttpRequest → Result HttpResponse) (fuel : ℕ) where
  abbrev pub left : Connection → Connection
  left c = (handle_connection handler fuel c).1

  -- Connections whose handling returns are handled, and `serve` goes on.
  serve_returned :
      (cs : List Connection) (more : List (Accept Connection)) (handled : List Connection)
      → All (λ c. (handle_connection handler fuel c).0 ≡ ok tt) cs
      → serve (handle_blocking handler fuel) (accepts cs ++ more) handled
        ≡ serve (handle_blocking handler fuel) more (handled ++ map left cs)
  unfolding serve handle_blocking
  serve_returned [] more handled h = rw (append-nil handled) refl
  serve_returned (c ∷ cs) more handled (here, h) = rw here (
      serve_returned cs more (handled ++ left c ∷ []) h
      ∙ rw (append_assoc handled (left c ∷ []) (map left cs)) refl)

  -- If the handling of each earlier connection returns, and then a connection brings a frame that
  -- does not parse and its next write fails, `serve` ends with the ConnectionError of that write: it
  -- handles none of the later connections.
  pub serve-failed_reply :
      (earlier : List Connection) (later : List (Accept Connection)) (text rest : Text)
      (c : Connection) (cs : List Text) (sends : List Sent)
      → 0 < fuel
      → All (λ c. (handle_connection handler fuel c).0 ≡ ok tt) earlier
      → Delivers c cs
      → c.sends ≡ sent_failed ∷ sends
      → whole c cs ≡ text ++ (crlfcrlf ++ rest)
      → IsFrame text
      → parse_request_frame (record { contents = text }) ≡ throw http_request_parse_error
      → serve (handle_blocking handler fuel) (accepts earlier ++ accepted c ∷ later) []
        ≡ (throw connection_error, map left earlier ++ left c ∷ [])
  serve-failed_reply earlier later text rest c cs sends some_round h comes fails e frame parsed =
      let died =
        handle_connection-failed_reply handler fuel text rest c cs sends some_round comes fails e
          frame parsed in
      serve_returned earlier (accepted c ∷ later) [] h
      ∙ unfold serve handle_blocking in rw died refl
