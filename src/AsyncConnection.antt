-- ===== src/AsyncConnection.antt =====
-- async_connection.cpp: the pollables that read from a socket and write to one. What the kernel
-- answers is data: the outcomes of the next calls of `send`, and the outcome of a call of `recv`.
-- The clock starts when a pollable is made; a time is a number of seconds.
pub mod Reading
pub mod Writing
pub mod Closing
use cse124_httpserver.Base.{
  ℕ, ◌+◌, ◌-◌, Bool, true, false, Option, none, List, [], ◌∷◌, ◌++◌, length, take, drop, ltb,
  if◌then◌else◌, Text, text_eq,
}

abbrev pub bufsize : ℕ
bufsize = 1048576

abbrev pub default_timeout : ℕ
default_timeout = 5

-- How a call of `send` ends; with no outcome left the socket takes no more for now.
pub data Send : Type 0 where
  sent : ℕ → Send
  send_blocks send_fails : Send

-- `SocketWritePollable`, and what its socket took so far.
pub record WritePollable : Type 0 where
  pub message : Text
  pub total_sent : ℕ
  pub done : Bool
  pub started : ℕ
  pub wire : Text

-- `SocketWritePollable::past_deadline`
unfoldable pub write_past_deadline : WritePollable → ℕ → Bool
write_past_deadline w now = ltb default_timeout (now - w.started)

-- `total_sent += sent`
abbrev pub took : WritePollable → ℕ → WritePollable
took w n = record w {
  total_sent = w.total_sent + n;
  wire = w.wire ++ take n (drop w.total_sent w.message);
}

-- `SocketWritePollable::try_write`
unfoldable pub try_write : List Send → WritePollable → Bool × WritePollable
try_write [] w = (false, w)
try_write (send_blocks ∷ sends) w = (false, w)
try_write (send_fails ∷ sends) w = (true, w)
try_write (sent n ∷ sends) w =
    let again = try_write sends (took w n) in
    if ltb (w.total_sent + n) (length w.message) then again else (true, took w n)

-- `SocketWritePollable::notify`: the callback is called if the write is done.
unfoldable pub notify_write :
    {P : Type 0} → Option P → List Send → WritePollable → WritePollable × Option P
unfolding try_write
notify_write callback sends w =
    let after = try_write sends w in
    (record (after.1) { done = after.0 }, if after.0 then callback else none)
