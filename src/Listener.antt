-- ===== src/Listener.antt =====
-- listener.cpp, async_listener.cpp, and `AsyncHttpServer::serve` of async_http_server.cpp. What the
-- kernel gives is data: whether `bind` and `listen` succeed, and the outcomes of the next calls of
-- `accept`. No socket is INVALID_SOCK.
pub mod Closing
pub mod Serving
use cse124_httpserver.Base.{
  ℕ, Bool, true, false, Option, none, some, List, [], ◌∷◌, if◌then◌else◌, Result, ok, throw,
  listener_error,
}
use cse124_httpserver.Connection.Accepting.{Accept, accepted, accept_fails}
use cse124_httpserver.EventLoop.{Notified, returned, thrown, Pollable}

pub record SocketListener : Type 0 where
  pub sock : Option ℕ

-- `SocketListener::SocketListener(uint16_t)`, with what `socket` and `bind` give.
unfoldable pub socket_listener : ℕ → Bool → Result SocketListener
socket_listener sock bound =
    if bound then ok (record { sock = some sock }) else throw listener_error

-- The move constructor: the new listener, and the old one after it.
abbrev pub move_listener : SocketListener → SocketListener × SocketListener
move_listener listener = (record { sock = listener.sock }, record { sock = none })

-- `SocketListener::~SocketListener`: the sockets it shuts down and closes.
abbrev pub destroy_listener : SocketListener → List ℕ
destroy_listener listener = elim listener.sock [ none ↦ [] | some sock ↦ sock ∷ [] ]

-- `SocketListener::listen`
unfoldable pub listen : Bool → Result (Unit {0})
listen listens = if listens then ok tt else throw listener_error

-- A connection that was accepted: its socket, and the peer's address.
pub record SocketConnection : Type 0 where
  pub client_sock : ℕ
  pub client_remote_ip : ℕ

-- `SocketListener::accept`
unfoldable pub accept : Accept (ℕ × ℕ) → Result SocketConnection
accept accept_fails = throw listener_error
accept (accepted (sock, ip)) = ok (record { client_sock = sock; client_remote_ip = ip })

-- `AsyncSocketListener::accept`. That the socket cannot be set to non-blocking is only printed.
unfoldable pub accept_async : Accept (ℕ × ℕ) → Result SocketConnection
accept_async accept_fails = throw listener_error
accept_async (accepted (sock, ip)) = ok (record { client_sock = sock; client_remote_ip = ip })

-- The pollables in the server's loop: an AsyncSocketListenerPollable, with the outcomes of its next
-- calls of `accept`, after which these fail; or a pollable of a connection.
pub data Registered {ℓ} (Q : Type ℓ) : Type ℓ where
  listening : List (Accept (ℕ × ℕ)) → Registered Q
  serving : Q → Registered Q

abbrev pub next_serving {ℓ} : {Q : Type ℓ} → Option Q → Option (Registered Q)
next_serving none = none
next_serving (some q) = some (serving q)

abbrev pub as_serving {ℓ} : {Q : Type ℓ} → Q × Notified Q → Registered Q × Notified (Registered Q)
as_serving (q, returned next) = (serving q, returned (next_serving next))
as_serving (q, thrown) = (serving q, thrown)

module _ {ℓ} {Q : Type ℓ} (pollable : Pollable Q) (callback : SocketConnection → Option Q) where
  -- `callback(listener->accept())`
  abbrev pub call_back : Result SocketConnection → Notified (Registered Q)
  call_back (ok conn) = returned (next_serving (callback conn))
  call_back _ = thrown

  -- `AsyncSocketListenerPollable::notify`
  unfoldable pub notify_listener : List (Accept (ℕ × ℕ)) → Registered Q × Notified (Registered Q)
  unfolding accept_async
  notify_listener [] = (listening [], call_back (accept_async accept_fails))
  notify_listener (a ∷ accepts) = (listening accepts, call_back (accept_async a))

  abbrev pub registered_is_done : Registered Q → Bool
  registered_is_done (listening accepts) = false
  registered_is_done (serving q) = pollable.is_done q

  abbrev pub registered_past_deadline : Registered Q → ℕ → Bool
  registered_past_deadline (listening accepts) now = false
  registered_past_deadline (serving q) now = pollable.past_deadline q now

  unfoldable pub notify_registered : Registered Q → ℕ → Registered Q × Notified (Registered Q)
  unfolding notify_listener
  notify_registered (listening accepts) revents = notify_listener accepts
  notify_registered (serving q) revents = as_serving (pollable.notify q revents)

  -- The pollables of the listener and of the connections.
  unfoldable pub registered : Pollable (Registered Q)
  unfolding notify_registered
  registered = record {
    is_done = registered_is_done;
    past_deadline = registered_past_deadline;
    notify = notify_registered;
  }
