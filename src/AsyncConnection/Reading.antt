-- ===== src/AsyncConnection/Reading.antt =====
-- async_connection.cpp: the read pollable, and `read_until` with callbacks. The callback of a pending
-- read is `make_read_into_buffer` at a separator; what it does is a step: it hands the text before
-- the separator on, or it returns a new read pollable with the same callback.
pub mod Blocking
use cse124_httpserver.Base.{
  ℕ, Bool, true, false, not, none, some, List, [], ◌∷◌, ◌++◌, length, ltb, if◌then◌else◌, Text,
  text_eq, find, Result, ok, throw, undefined, no_fuel, connection_closed, connection_error, ◌>>=◌,
}
use cse124_httpserver.Util.{pop_n_sstream}
use cse124_httpserver.Connection.{Recv, bytes, would_block, failed}
use cse124_httpserver.AsyncConnection.{bufsize}

pub data Step : Type 0 where
  content : Text → Step
  read_again gave_up : Step

-- `SocketReadPollable::try_read`. A full buffer has no room for the byte that ends it.
unfoldable pub try_read : Recv → Result Text
try_read would_block = ok []
try_read failed = throw connection_error
try_read (bytes []) = throw connection_closed
try_read (bytes (c ∷ s)) = if ltb (length (c ∷ s)) bufsize then ok (c ∷ s) else undefined

-- The text and what remains in the buffer, handed on.
abbrev pub hand_on : Text × Text → Step × Text
hand_on (text, buffer) = (content text, buffer)

-- The branches on the separator that `make_read_into_buffer` and `read_until` share.
unfoldable pub take_content : Text → Text → Result (Step × Text)
take_content sep buffer = elim (find buffer sep 0) [
  | some pos ↦ (do popped ← pop_n_sstream buffer pos (length sep); ok (hand_on popped))
  | none ↦ ok (read_again, buffer)
]

-- The callback that `make_read_into_buffer` returns.
unfoldable pub read_into_buffer : Text → Text → Text → Result (Step × Text)
unfolding take_content
read_into_buffer sep buf_str buffer = take_content sep (buffer ++ buf_str)

-- `AsyncBufferedConnection::read_until`
unfoldable pub read_until_async : Text → Text → Result (Step × Text)
unfolding take_content
read_until_async sep buffer = take_content sep buffer

-- What `notify` does with the outcome of `try_read`: whether the pollable is done, and the step.
abbrev pub notify_with : Text → Text → Result Text → Bool × Result (Step × Text)
notify_with sep buffer (ok s) = (not (text_eq s []), read_into_buffer sep s buffer)
notify_with sep buffer (throw connection_closed) = (true, ok (gave_up, buffer))
notify_with sep buffer (throw e) = (false, throw e)
notify_with sep buffer undefined = (false, undefined)
notify_with sep buffer no_fuel = (false, no_fuel)

-- `SocketReadPollable::notify`
unfoldable pub notify_read : Text → Text → Recv → Bool × Result (Step × Text)
unfolding try_read read_into_buffer
notify_read sep buffer received = notify_with sep buffer (try_read received)

-- The notifications of a pending read and of those that follow it, until the text is handed on.
pub deliver : Text → List Recv → Text → Result (Step × Text)
unfolding notify_read
deliver sep [] buffer = ok (read_again, buffer)
deliver sep (received ∷ more) buffer = do
  (step, buffer') ← (notify_read sep buffer received).1
  let later = deliver sep more buffer' in
      elim step [
        | content text ↦ ok (content text, buffer')
        | read_again ↦ later
        | gave_up ↦ ok (gave_up, buffer')
      ]
