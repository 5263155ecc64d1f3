-- ===== src/EventLoop.antt =====
-- async_event_loop.h and async_event_loop.cpp. The pollables are a parameter: a type of their states
-- and the virtual members of `Pollable`. What the kernel reports is data: for each turn of the loop,
-- what `poll` returns and the time that is then read.
pub mod Turns
use cse124_httpserver.Base.{
  ℕ, Bool, true, false, not, Option, none, some, List, [], ◌∷◌, ◌++◌, ◌==◌, if◌then◌else◌, Result,
  ok, throw, no_fuel, runtime_error, ◌>>=◌,
}

-- How a call of `notify` ends: it returns the next pollable or null, or it throws.
pub data Notified {ℓ} (P : Type ℓ) : Type ℓ where
  returned : Option P → Notified P
  thrown : Notified P

-- The members of `Pollable` that the loop depends on; `notify` may change the pollable.
pub record Pollable {ℓ} (P : Type ℓ) : Type ℓ where
  pub is_done : P → Bool
  pub past_deadline : P → ℕ → Bool
  pub notify : P → ℕ → P × Notified P

-- What `poll` gives: the `revents` of the descriptors, or an error.
pub data Polled : Type 0 where
  ready : List ℕ → Polled
  poll_failed : Polled

module _ {ℓ} {P : Type ℓ} (pollable : Pollable P) where
  abbrev pub register_pollable : P → List P → List P
  register_pollable p pollables = pollables ++ p ∷ []

  abbrev pub register_next : Option P → List P → List P
  register_next none pollables = pollables
  register_next (some p) pollables = register_pollable p pollables

  -- What `process_pollable` does after the call of `notify`.
  abbrev pub process_notified : P × Notified P → List P → List P
  process_notified (p, returned next) pollables =
      register_next next (if pollable.is_done p then pollables else register_pollable p pollables)
  process_notified (p, thrown) pollables = pollables

  abbrev pub process_pollable : P → ℕ → List P → List P
  process_pollable p revents pollables = process_notified (pollable.notify p revents) pollables

  -- The loop over the descriptors, with the vectors `skipped` and `pollables`. A descriptor that
  -- `poll` does not report has the `revents` that `pollfd_from_pollable` gave it, 0.
  pub process_all : List P → List ℕ → List P → List P → List P × List P
  process_all [] revents skipped pollables = (skipped, pollables)
  process_all (p ∷ cur) [] skipped pollables = process_all cur [] (skipped ++ p ∷ []) pollables
  process_all (p ∷ cur) (r ∷ revents) skipped pollables =
      let idle = process_all cur revents (skipped ++ p ∷ []) pollables in
      let busy = process_all cur revents skipped (process_pollable p r pollables) in
      if r == 0 then idle else busy

  -- The loop over `skipped`, with the vector `new_pollables`.
  pub keep_in_time : ℕ → List P → List P → List P
  keep_in_time now [] new_pollables = new_pollables
  keep_in_time now (p ∷ skipped) new_pollables =
      let late = keep_in_time now skipped new_pollables in
      let kept = keep_in_time now skipped (new_pollables ++ p ∷ []) in
      if pollable.past_deadline p now then late else kept

  -- One turn of `AsyncEventLoop::loop`.
  unfoldable pub turn : Polled → ℕ → List P → Result (List P)
  unfolding process_all keep_in_time
  turn poll_failed now cur = throw runtime_error
  turn (ready revents) now cur =
      let after = process_all cur revents [] [] in ok (keep_in_time now after.0 [] ++ after.1)

  -- `AsyncEventLoop::loop`, for as many turns as are listed.
  unfoldable pub loop : List (Polled × ℕ) → List P → Result (List P)
  unfolding turn
  loop turns [] = ok []
  loop [] (p ∷ pollables) = no_fuel
  loop ((polled, now) ∷ turns) (p ∷ pollables) = do
    next ← turn polled now (p ∷ pollables)
    loop turns next
