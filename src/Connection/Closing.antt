-- ===== src/Connection/Closing.antt =====
-- connection.cpp: when a socket is closed. A BufferedConnection that was moved from has no socket.
use cse124_httpserver.Base.{
  ℕ, ◌+◌, ◌≡◌, refl, inl, inr, Bool, true, false, not, Bool-cases, Option, none, some,
  if◌then◌else◌,
}

-- Whether there is a descriptor, and how often `::close` was called for it.
pub record Socket : Type 0 where
  pub has_descriptor : Bool
  pub closes : ℕ

-- `SocketConnection::is_closed`
abbrev pub is_closed : Socket → Bool
is_closed s = not s.has_descriptor

-- `SocketConnection::close`, which the destructor calls.
unfoldable pub close : Socket → Socket
close s = if is_closed s then s else record { has_descriptor = false; closes = s.closes + 1 }

-- `BufferedConnection::is_closed`
abbrev pub buffered_is_closed : Option Socket → Bool
buffered_is_closed none = true
buffered_is_closed (some s) = is_closed s

-- `BufferedConnection::close`, which the destructor calls.
unfoldable pub buffered_close : Option Socket → Option Socket
unfolding close
buffered_close none = none
buffered_close (some s) = if buffered_is_closed (some s) then some s else some (close s)

-- `BufferedConnection(BufferedConnection&&)`: the new connection, and the old one after it.
abbrev pub move_connection : Option Socket → Option Socket × Option Socket
move_connection conn = (conn, none)

-- A socket is closed once: a second `close` changes nothing.
close_twice : (s : Socket) → close (close s) ≡ close s
unfolding close
close_twice s = elim (Bool-cases s.has_descriptor) [
  | inl opened ↦ rw opened
  | inr closed ↦ rw closed
]

buffered_close_twice :
    (conn : Option Socket) → buffered_close (buffered_close conn) ≡ buffered_close conn
unfolding buffered_close close
buffered_close_twice none = refl
buffered_close_twice (some s) = elim (Bool-cases s.has_descriptor) [
  | inl opened ↦ rw opened
  | inr closed ↦ rw closed
]
