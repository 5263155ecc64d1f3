-- ===== src/AsyncFiles/Failing.antt =====
-- A file whose reads fail, such as a directory, in the event loop.
use cse124_httpserver.Base.{
  ℕ, suc, ◌==◌, arith, ◌≡◌, refl, false, Option, none, List, [], ◌∷◌, Text, Result, ok, no_fuel,
}
use cse124_httpserver.AsyncFiles.{read_fails, FileReadPollable, file_past_deadline, notify_file}
use cse124_httpserver.EventLoop.{Pollable, Notified, returned, thrown, Polled, ready, turn, loop}

-- What `notify` returns to the loop, where the callback returns nothing to listen to.
abbrev pub as_notified :
    FileReadPollable
    → Result (FileReadPollable × Option Text)
    → FileReadPollable × Notified FileReadPollable
as_notified p (ok (p', text)) = (p', returned none)
as_notified p _ = (p, thrown)

-- The pollables that read files, where every read fails.
abbrev pub failing_files : Pollable FileReadPollable
failing_files = record {
  is_done = λ p. p.done;
  past_deadline = file_past_deadline;
  notify = λ p revents. as_notified p (notify_file read_fails p);
}

-- Turns of the loop in each of which `poll` reports an event for one descriptor.
abbrev pub reported : List (ℕ × ℕ) → List (Polled × ℕ)
reported [] = []
reported ((r, now) ∷ more) = (ready (suc r ∷ []), now) ∷ reported more

turn-failing :
    (r now : ℕ) (p : FileReadPollable)
    → turn failing_files (ready (suc r ∷ [])) now (p ∷ []) ≡ ok (record p { done = false } ∷ [])
unfolding turn notify_file
turn-failing r now p = let reported : (suc r == 0) ≡ false = ground arith in rw reported refl

-- A file whose reads fail is never given up: as long as `poll` reports its descriptor, which it does
-- for a directory, no number of turns ends the loop, and no deadline is looked at.
pub loop-failing :
    (reports : List (ℕ × ℕ)) (p : FileReadPollable)
    → loop failing_files (reported reports) (p ∷ []) ≡ no_fuel
unfolding loop
loop-failing [] p = refl
loop-failing ((r, now) ∷ more) p =
    rw (turn-failing r now p) (loop-failing more (record p { done = false }))
