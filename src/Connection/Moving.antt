-- ===== src/Connection/Moving.antt =====
-- connection.cpp: the constructors of SocketConnection. What is not set is `none`.
use cse124_httpserver.Base.{ℕ, ◌≡◌, refl, Option, none, some, Result, ok, undefined}

-- INVALID_SOCK is `none`.
pub record ClientSocket : Type 0 where
  pub client_sock : Option ℕ
  pub client_remote_ip : Option ℕ

-- `SocketConnection::SocketConnection(int, struct in_addr)`. That the timeout cannot be set is only
-- printed.
abbrev socket_connection : ℕ → ℕ → ClientSocket
socket_connection client_sock client_remote_ip = record {
  client_sock = some client_sock;
  client_remote_ip = some client_remote_ip;
}

-- `SocketConnection::SocketConnection(SocketConnection&&)`: the new connection, and the old one after
-- it. The address of the new one is not set.
abbrev move_socket : ClientSocket → ClientSocket × ClientSocket
move_socket conn = (
  record { client_sock = conn.client_sock; client_remote_ip = none },
  record conn { client_sock = none },
)

-- `SocketConnection::remote_ip`
abbrev remote_ip_of : ClientSocket → Result ℕ
remote_ip_of conn = elim conn.client_remote_ip [ none ↦ undefined | some ip ↦ ok ip ]

-- A connection that was made by a move has no address.
move_socket-remote_ip : (conn : ClientSocket) → remote_ip_of (move_socket conn).0 ≡ undefined
move_socket-remote_ip conn = refl
