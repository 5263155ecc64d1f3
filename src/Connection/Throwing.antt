-- ===== src/Connection/Throwing.antt =====
-- Which exceptions leave `handle_connection`.
use cse124_httpserver.Base.{
  ℕ, List, [], ◌∷◌, http_request_parse_error, connection_closed, connection_error, Result, ok,
  throw, undefined, no_fuel, Text,
}
use cse124_httpserver.Http.{HttpRequest, HttpResponse}
use cse124_httpserver.Connection.{
  Connection, Sent, sent_whole, sent_short, sent_failed, send, write, write_response, serve_loop,
  catch_all, handle_connection,
}

-- The only exception is that of a failed write.
abbrev pub ThrowsConnectionError {ℓ} : {A : Type ℓ} → Result A → Type 0
ThrowsConnectionError (throw connection_error) = Unit
ThrowsConnectionError (throw e) = ⊥
ThrowsConnectionError _ = Unit

send-ThrowsConnectionError :
    (sends : List Sent) (s : Text) (c : Connection) → ThrowsConnectionError (send sends s c).0
unfolding send
send-ThrowsConnectionError [] s c = tt
send-ThrowsConnectionError (sent_whole ∷ sends) s c = tt
send-ThrowsConnectionError (sent_short n ∷ sends) s c = tt
send-ThrowsConnectionError (sent_failed ∷ sends) s c = tt

module _ (handler : HttpRequest → Result HttpResponse) where
  catch_all-ThrowsConnectionError :
      (after : Result (Unit {0}) × Connection) → ThrowsConnectionError (catch_all handler after).0
  unfolding catch_all write_response write
  catch_all-ThrowsConnectionError (ok u, c) = tt
  catch_all-ThrowsConnectionError (undefined, c) = tt
  catch_all-ThrowsConnectionError (no_fuel, c) = tt
  catch_all-ThrowsConnectionError (throw http_request_parse_error, c) =
      send-ThrowsConnectionError c.sends _ c
  catch_all-ThrowsConnectionError (throw connection_closed, c) = tt
  catch_all-ThrowsConnectionError (throw e, c) = send-ThrowsConnectionError c.sends _ c

  -- Whatever the handler of requests throws, and whatever reads and sends do, short sends included, `handle_connection`
  -- throws no exception but the ConnectionError of a failed write.
  pub handle_connection-ThrowsConnectionError :
      (fuel : ℕ) (c : Connection) → ThrowsConnectionError (handle_connection handler fuel c).0
  unfolding handle_connection
  handle_connection-ThrowsConnectionError fuel c =
      catch_all-ThrowsConnectionError (serve_loop handler fuel c)
