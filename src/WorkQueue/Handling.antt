-- ===== src/WorkQueue/Handling.antt =====
-- What the workers of the pool in detail have done, in every state they reach.
use cse124_httpserver.Base.{
  ℕ, zero, suc, ◌+◌, ◌<◌, ◌≡◌, List, [], ◌∷◌, ◌++◌, arith, All, All-append, All-split, Result,
  length, length-append,
}
use cse124_httpserver.Http.{HttpRequest, HttpResponse}
use cse124_httpserver.Connection.{Connection, handle_connection}
use cse124_httpserver.Connection.Threads.{
  running, ended, round, Follows, round-Follows, new-Follows,
}
use cse124_httpserver.WorkQueue.Fairness.{IsSound, Steps-IsSound}
use cse124_httpserver.WorkQueue.Workers.{
  Worker, looks, sleeps, handles, Workers, handling, new_threads, Pooled, starts, turns, queues,
  queues_waking, dozes, stirs, pops, goes_on, loops,
}
use cse124_httpserver.WorkQueue.Counting.{counted, replaced, new_threads-handling, Pooled-Steps}

module _ (handler : HttpRequest → Result HttpResponse) where
  -- What became of the connection is what the call does on it alone.
  abbrev pub WasHandled : Connection × (Result (Unit {0}) × Connection) → Type 0
  WasHandled (conn, outcome) =
      (k : ℕ) × ((f : ℕ) → handle_connection handler (k + f) conn ≡ outcome)

  module _ (IsDue : Connection → Type 0) where
    -- The worker's connection was due, and what was done with it is the beginning of the call.
    abbrev pub IsAtWork : Worker → Type 0
    IsAtWork looks = Unit
    IsAtWork sleeps = Unit
    IsAtWork (handles conn thread) = IsDue conn × Follows handler (conn, thread)

    -- The connection was due, and was handled.
    abbrev pub WasDue : Connection × (Result (Unit {0}) × Connection) → Type 0
    WasDue (conn, outcome) = IsDue conn × WasHandled (conn, outcome)

    WasDue-WasHandled :
        (handled : List (Connection × (Result (Unit {0}) × Connection)))
        → All WasDue handled
        → All WasHandled handled
    WasDue-WasHandled [] done = tt
    WasDue-WasHandled (one ∷ handled) (here, later) = (here.1, WasDue-WasHandled handled later)

    new_threads-IsAtWork : (size : ℕ) → All IsAtWork (new_threads size)
    new_threads-IsAtWork zero = tt
    new_threads-IsAtWork (suc size) = (tt, new_threads-IsAtWork size)

    replace-IsAtWork :
        (before after : List Worker) (x y : Worker)
        → (IsAtWork x → IsAtWork y)
        → All IsAtWork (before ++ x ∷ after)
        → All IsAtWork (before ++ y ∷ after)
    replace-IsAtWork before after x y becomes all =
        let (fore, (here, later)) = All-split IsAtWork before (x ∷ after) all in
        All-append IsAtWork before (y ∷ after) fore (becomes here, later)

    -- If what is pushed is due, then so is what is popped.
    popped-IsDue :
        (size : ℕ) (pushed : List Connection) (s : Workers)
        → 0 < size
        → All IsDue pushed
        → Pooled handler size pushed s
        → All IsDue s.work_queue
    popped-IsDue size pushed s some_thread due p =
        let (order, _, _) =
          Steps-IsSound size pushed (counted s) some_thread
            (Pooled-Steps handler size pushed s p) in
        (All-split IsDue s.popped s.work_queue (rw (order) due)).1

    pub Pooled-IsAtWork :
        (size : ℕ) (pushed : List Connection) (s : Workers)
        → 0 < size
        → All IsDue pushed
        → Pooled handler size pushed s
        → All IsAtWork s.thread_pool × All WasDue s.handled
    Pooled-IsAtWork size _ _ h due starts = (new_threads-IsAtWork size, tt)
    Pooled-IsAtWork size _ _ h due (queues {pushed = pushed} s conn none_sleeps p) =
        Pooled-IsAtWork size _ s h (All-split IsDue pushed (conn ∷ []) due).0 p
    Pooled-IsAtWork size _ _ h due (queues_waking {pushed = pushed} before after s conn p) =
        let (work, done) =
          Pooled-IsAtWork size _ _ h (All-split IsDue pushed (conn ∷ []) due).0 p in
        (replace-IsAtWork before after sleeps looks (λ _. tt) work, done)
    Pooled-IsAtWork size _ _ h due (turns (dozes before after s) p) =
        let (work, done) = Pooled-IsAtWork size _ _ h due p in
        (replace-IsAtWork before after looks sleeps (λ _. tt) work, done)
    Pooled-IsAtWork size _ _ h due (stirs before after s p) =
        let (work, done) = Pooled-IsAtWork size _ _ h due p in
        (replace-IsAtWork before after sleeps looks (λ _. tt) work, done)
    Pooled-IsAtWork size _ _ h due (turns (pops before after conn rest s) p) =
        let (work, done) = Pooled-IsAtWork size _ _ h due p in
        let (is_due, _) = popped-IsDue size _ _ h due p in
        (
          replace-IsAtWork before after looks (handles conn (running conn))
              (λ _. (is_due, new-Follows handler conn)) work,
          done,
        )
    Pooled-IsAtWork size _ _ h due (turns (goes_on before after conn now s) p) =
        let (work, done) = Pooled-IsAtWork size _ _ h due p in
        (
          replace-IsAtWork before after (handles conn (running now))
              (handles conn (round handler now)) (λ w. (w.0, round-Follows handler conn now w.1))
              work,
          done,
        )
    Pooled-IsAtWork size _ _ h due (turns (loops before after conn outcome s) p) =
        let (work, done) = Pooled-IsAtWork size _ _ h due p in
        let (is_due, (k, follows)) =
          (All-split IsAtWork before (handles conn (ended outcome) ∷ after) work).1.0 in
        (
          replace-IsAtWork before after (handles conn (ended outcome)) looks (λ _. tt) work,
          All-append WasDue s.handled ((conn, outcome) ∷ []) done ((is_due, (k, follows)), tt),
        )

  -- What was popped is handled or is at work.
  pub Pooled-accounted :
      (size : ℕ) (pushed : List Connection) (s : Workers)
      → Pooled handler size pushed s
      → length s.handled + handling s.thread_pool ≡ length s.popped
  Pooled-accounted size _ _ starts = omega (arith, new_threads-handling size)
  Pooled-accounted size _ _ (queues s conn none_sleeps p) = Pooled-accounted size _ s p
  Pooled-accounted size _ _ (queues_waking before after s conn p) =
      let (_, _, h) = replaced before after sleeps looks in
      omega (arith, Pooled-accounted size _ _ p)
  Pooled-accounted size _ _ (turns (dozes before after s) p) =
      let (_, _, h) = replaced before after looks sleeps in
      omega (arith, Pooled-accounted size _ _ p)
  Pooled-accounted size _ _ (stirs before after s p) =
      let (_, _, h) = replaced before after sleeps looks in
      omega (arith, Pooled-accounted size _ _ p)
  Pooled-accounted size _ _ (turns (pops before after conn rest s) p) =
      let (_, _, h) = replaced before after looks (handles conn (running conn)) in
      omega (arith, length-append s.popped (conn ∷ []), Pooled-accounted size _ _ p)
  Pooled-accounted size _ _ (turns (goes_on before after conn now s) p) =
      let (_, _, h) =
        replaced before after (handles conn (running now)) (handles conn (round handler now)) in
      omega (arith, Pooled-accounted size _ _ p)
  Pooled-accounted size _ _ (turns (loops before after conn outcome s) p) =
      let (_, _, h) = replaced before after (handles conn (ended outcome)) looks in
      omega (arith, length-append s.handled ((conn, outcome) ∷ []), Pooled-accounted size _ _ p)

  All-unit : (conns : List Connection) → All (λ _. Unit {0}) conns
  All-unit [] = tt
  All-unit (conn ∷ conns) = (tt, All-unit conns)

  -- In every state that a pool with at least one thread reaches, what was popped and what is queued
  -- are in order what was pushed, no thread is lost, while the queue is not empty some thread does
  -- not sleep, as many
  -- connections were popped as are handled or at work in a thread, and each that was handled has become what `handle_connection` makes of it alone, with the
  -- same outcome.
  pub Pooled-IsSound :
      (size : ℕ) (pushed : List Connection) (s : Workers)
      → 0 < size
      → Pooled handler size pushed s
      → IsSound size pushed (counted s)
        × (length s.handled + handling s.thread_pool ≡ length s.popped)
        × All WasHandled s.handled
  Pooled-IsSound size pushed s some_thread p = (
    Steps-IsSound size pushed (counted s) some_thread (Pooled-Steps handler size pushed s p),
    Pooled-accounted size pushed s p,
    WasDue-WasHandled (λ _. Unit) s.handled
        (Pooled-IsAtWork (λ _. Unit) size pushed s some_thread (All-unit pushed) p).1,
  )
