-- ===== src/WorkQueue/Turning.antt =====
-- How many turns the threads of the pool can take while nothing is pushed.
use cse124_httpserver.Base.{
  ℕ, zero, suc, ◌+◌, ◌≤◌, ◌<◌, ◌≡◌, ◌≢◌, List, [], ◌∷◌, ◌++◌, arith, Bool, true, false, All,
  All-append, All-split, Result, ok, throw, undefined, no_fuel,
}
use cse124_httpserver.Http.{HttpRequest, HttpResponse}
use cse124_httpserver.Connection.{Connection, serve_once}
use cse124_httpserver.Connection.Termination.{weight, IsFair, Advances, serve_once-Advances}
use cse124_httpserver.Connection.Threads.{running, ended, round, after_round}
use cse124_httpserver.WorkQueue.Workers.{
  Worker, looks, sleeps, handles, Workers, new_threads, Turn, dozes, pops, goes_on, loops, Turns,
  none_yet, then_turns, Pooled, starts, queues, queues_waking, stirs, turns,
}

-- The turns that a worker can take, at most, without popping.
abbrev pub turns_left : Worker → ℕ
turns_left looks = 1
turns_left sleeps = 0
turns_left (handles conn (running now)) = weight now + 3
turns_left (handles conn (ended outcome)) = 2

abbrev pub all_turns_left : List Worker → ℕ
all_turns_left [] = 0
all_turns_left (w ∷ ws) = turns_left w + all_turns_left ws

-- The turns that the queued connections can give.
abbrev pub turns_queued : List Connection → ℕ
turns_queued [] = 0
turns_queued (conn ∷ queue) = weight conn + 3 + turns_queued queue

-- A bound on the turns of a pool to which nothing is pushed.
abbrev pub turn_bound : Workers → ℕ
turn_bound s = turns_queued s.work_queue + all_turns_left s.thread_pool

all_turns_left-append :
    (xs ys : List Worker) → all_turns_left (xs ++ ys) ≡ all_turns_left xs + all_turns_left ys
all_turns_left-append [] ys = omega arith
all_turns_left-append (w ∷ xs) ys = omega (arith, all_turns_left-append xs ys)

replaced_turns :
    (before after : List Worker) (x y : Worker)
    → all_turns_left (before ++ x ∷ after) + turns_left y
      ≡ all_turns_left (before ++ y ∷ after) + turns_left x
replaced_turns before after x y =
    omega
      (arith, all_turns_left-append before (x ∷ after), all_turns_left-append before (y ∷ after))

-- No read of a connection is cut short.
abbrev pub FairConnection : Connection → Type 0
FairConnection conn = IsFair conn.reads

abbrev FairWorker : Worker → Type 0
FairWorker (handles conn (running now)) = IsFair now.reads
FairWorker _ = Unit

abbrev FairState : Workers → Type 0
FairState s = All FairConnection s.work_queue × All FairWorker s.thread_pool

new_threads-FairWorker : (size : ℕ) → All FairWorker (new_threads size)
new_threads-FairWorker zero = tt
new_threads-FairWorker (suc size) = (tt, new_threads-FairWorker size)

replace-FairWorker :
    (before after : List Worker) (x y : Worker)
    → (FairWorker x → FairWorker y)
    → All FairWorker (before ++ x ∷ after)
    → All FairWorker (before ++ y ∷ after)
replace-FairWorker before after x y becomes all =
    let (fore, (here, later)) = All-split FairWorker before (x ∷ after) all in
    All-append FairWorker before (y ∷ after) fore (becomes here, later)

module _ (handler : HttpRequest → Result HttpResponse)
    (answers : (r : HttpRequest) → handler r ≢ no_fuel) where
  after_round-left :
      (conn : Connection) (n : ℕ) (x : Result Bool × Connection)
      → Advances n x
      → (turns_left (handles conn (after_round handler x)) < n + 3)
        × FairWorker (handles conn (after_round handler x))
  after_round-left conn n (ok true, c) (less, fair) = (omega arith, fair)
  after_round-left conn n (ok false, c) h = (omega arith, tt)
  after_round-left conn n (throw e, c) h = (omega arith, tt)
  after_round-left conn n (undefined, c) h = (omega arith, tt)
  after_round-left conn n (no_fuel, c) h = absurd h

  round-left :
      (conn now : Connection)
      → IsFair now.reads
      → (turns_left (handles conn (round handler now)) < weight now + 3)
        × FairWorker (handles conn (round handler now))
  unfolding round
  round-left conn now fair =
      after_round-left conn (weight now) (serve_once handler now)
        (serve_once-Advances handler answers now fair)

  -- A turn leaves fewer turns, and no read that is cut short.
  Turn-left :
      (s s' : Workers)
      → Turn handler s s'
      → FairState s
      → (turn_bound s' < turn_bound s) × FairState s'
  Turn-left _ _ (dozes before after s) (queue, pool) = (
    omega (arith, replaced_turns before after looks sleeps),
    (queue, replace-FairWorker before after looks sleeps (λ _. tt) pool),
  )
  Turn-left _ _ (pops before after conn rest s) (queue, pool) = (
    omega (arith, replaced_turns before after looks (handles conn (running conn))),
    (
      queue.1,
      replace-FairWorker before after looks (handles conn (running conn)) (λ _. queue.0) pool,
    ),
  )
  Turn-left _ _ (goes_on before after conn now s) (queue, pool) =
      let fair = (All-split FairWorker before (handles conn (running now) ∷ after) pool).1.0 in
      let (less, fair') = round-left conn now fair in
      (
        omega (
          arith,
          replaced_turns before after (handles conn (running now))
              (handles conn (round handler now)),
        ),
        (
          queue,
          replace-FairWorker before after (handles conn (running now))
              (handles conn (round handler now)) (λ _. fair') pool,
        ),
      )
  Turn-left _ _ (loops before after conn outcome s) (queue, pool) = (
    omega (arith, replaced_turns before after (handles conn (ended outcome)) looks),
    (queue, replace-FairWorker before after (handles conn (ended outcome)) looks (λ _. tt) pool),
  )

  pub Pooled-FairState :
      (size : ℕ) (pushed : List Connection) (s : Workers)
      → All FairConnection pushed
      → Pooled handler size pushed s
      → FairState s
  Pooled-FairState size _ _ fair starts = (tt, new_threads-FairWorker size)
  Pooled-FairState size _ _ fair (queues {pushed = pushed} s conn none_sleeps p) =
      let (fair', last) = All-split FairConnection pushed (conn ∷ []) fair in
      let (queue, pool) = Pooled-FairState size pushed s fair' p in
      (All-append FairConnection s.work_queue (conn ∷ []) queue last, pool)
  Pooled-FairState size _ _ fair (queues_waking {pushed = pushed} before after s conn p) =
      let (fair', last) = All-split FairConnection pushed (conn ∷ []) fair in
      let (queue, pool) = Pooled-FairState size pushed _ fair' p in
      (
        All-append FairConnection s.work_queue (conn ∷ []) queue last,
        replace-FairWorker before after sleeps looks (λ _. tt) pool,
      )
  Pooled-FairState size pushed _ fair (stirs before after s p) =
      let (queue, pool) = Pooled-FairState size pushed _ fair p in
      (queue, replace-FairWorker before after sleeps looks (λ _. tt) pool)
  Pooled-FairState size pushed _ fair (turns {s = s} {s' = s'} turn p) =
      (Turn-left s s' turn (Pooled-FairState size pushed s fair p)).1

  pub Turns-left :
      (n : ℕ) (s s' : Workers)
      → Turns handler n s s'
      → FairState s
      → n + turn_bound s' ≤ turn_bound s
  Turns-left _ _ _ (none_yet s) fair = omega arith
  Turns-left _ s _ (then_turns {n = n} {s' = s'} {s'' = s''} turn later) fair =
      let (less, fair') = Turn-left s s' turn fair in omega (arith, Turns-left n s' s'' later fair')
