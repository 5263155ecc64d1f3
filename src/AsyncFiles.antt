-- ===== src/AsyncFiles.antt =====
-- async_file_repository.cpp: the pollable that reads a file. What a call of `read` gives is data. A
-- file that cannot be opened has no descriptor, and `poll` never reports it.
pub mod Reading
pub mod Failing
use cse124_httpserver.Base.{
  ℕ, ◌-◌, Bool, true, false, Option, none, some, List, [], ◌∷◌, ◌++◌, length, ltb, if◌then◌else◌,
  Text, Result, ok, undefined, ◌>>=◌,
}

abbrev pub file_bufsize : ℕ
file_bufsize = 1048576

abbrev pub file_timeout : ℕ
file_timeout = 5

-- What a call of `read` gives; no bytes are the end of the file.
pub data FileRead : Type 0 where
  got : Text → FileRead
  read_blocks read_fails : FileRead

pub record FileReadPollable : Type 0 where
  pub file_path : Text
  pub buffer : Text
  pub done : Bool
  pub started : ℕ

-- `PathAsyncFile::read_contents`
abbrev pub read_contents : Text → ℕ → FileReadPollable
read_contents file_path now = record {
  file_path = file_path;
  buffer = [];
  done = false;
  started = now;
}

-- `FileReadPollable::past_deadline`
unfoldable pub file_past_deadline : FileReadPollable → ℕ → Bool
file_past_deadline p now = ltb file_timeout (now - p.started)

-- `FileReadPollable::try_read`. A full buffer has no room for the byte that ends it.
unfoldable pub try_read_file : FileRead → FileReadPollable → Result (Bool × FileReadPollable)
try_read_file read_blocks p = ok (false, p)
try_read_file read_fails p = ok (false, p)
try_read_file (got []) p = ok (true, p)
try_read_file (got (c ∷ s)) p =
    if ltb (length (c ∷ s)) file_bufsize
    then ok (false, record p { buffer = p.buffer ++ (c ∷ s) })
    else undefined

-- `FileReadPollable::notify`: the pollable after it, and the text for the callback if that is called.
unfoldable pub notify_file : FileRead → FileReadPollable → Result (FileReadPollable × Option Text)
unfolding try_read_file
notify_file r p = do
  (done, p') ← try_read_file r p
  ok (record p' { done = done }, if done then some p'.buffer else none)
