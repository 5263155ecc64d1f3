-- ===== src/AsyncConnection/Closing.antt =====
-- async_connection.cpp: when the socket of an AsyncSocketConnection is closed.
use cse124_httpserver.Base.{ℕ, ◌≡◌, refl, Option, none, some, List, [], ◌∷◌, ◌++◌}

-- INVALID_SOCK is `none`.
pub record AutoClosingSocket : Type 0 where
  pub client_sock : Option ℕ

-- `AutoClosingSocket::~AutoClosingSocket`: what `shutdown` and `close` are called with. It does not
-- test for INVALID_SOCK.
abbrev destroy_socket : AutoClosingSocket → List (Option ℕ)
destroy_socket socket = socket.client_sock ∷ []

-- `AsyncSocketConnection::AsyncSocketConnection(AsyncSocketConnection&&)`: the new socket, and the old
-- one after it, which pending pollables may share.
abbrev move_async : AutoClosingSocket → AutoClosingSocket × AutoClosingSocket
move_async socket = (record { client_sock = socket.client_sock }, record { client_sock = none })

-- After a move the socket is closed once, and INVALID_SOCK is closed, too.
destroy_socket-move_async :
    (sock : ℕ)
    → let (new, old) = move_async (record { client_sock = some sock }) in
      destroy_socket old ++ destroy_socket new ≡ none ∷ some sock ∷ []
destroy_socket-move_async sock = refl
