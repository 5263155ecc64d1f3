-- ===== src/WorkQueue/Workers.antt =====
-- The thread pool of connection_handlers.cpp in detail: `handle_work_queue` in each of its threads, with
-- the connections that they handle. It implements the pool of WorkQueue, which counts the workers.
use cse124_httpserver.Base.{
  ℕ, zero, suc, ◌+◌, ◌<◌, ◌≡◌, refl, arith, ltb, ℤ, pos, negsuc, Bool, true, false, if◌then◌else◌,
  List, [], ◌∷◌, ◌++◌, Result, ok, no_fuel, ◌>>=◌,
}
use cse124_httpserver.Http.{HttpRequest, HttpResponse}
use cse124_httpserver.Connection.{Connection}
use cse124_httpserver.Connection.Threads.{Thread, running, ended, round}

-- A worker is about to look at the queue, waits for it, or handles the connection that it popped.
pub data Worker : Type 0 where
  looks sleeps : Worker
  handles : Connection → Thread → Worker

-- The queue, what was popped, the workers, and the connections that were handled, with the outcomes.
pub record Workers : Type 0 where
  pub work_queue : List Connection
  pub popped : List Connection
  pub thread_pool : List Worker
  pub handled : List (Connection × (Result (Unit {0}) × Connection))

abbrev pub looking : List Worker → ℕ
looking [] = 0
looking (looks ∷ ws) = suc (looking ws)
looking (sleeps ∷ ws) = looking ws
looking (handles conn thread ∷ ws) = looking ws

abbrev pub sleeping : List Worker → ℕ
sleeping [] = 0
sleeping (looks ∷ ws) = sleeping ws
sleeping (sleeps ∷ ws) = suc (sleeping ws)
sleeping (handles conn thread ∷ ws) = sleeping ws

abbrev pub handling : List Worker → ℕ
handling [] = 0
handling (looks ∷ ws) = handling ws
handling (sleeps ∷ ws) = handling ws
handling (handles conn thread ∷ ws) = suc (handling ws)

abbrev pub new_threads : ℕ → List Worker
new_threads zero = []
new_threads (suc size) = looks ∷ new_threads size

-- `i < size`, of an `int` that may be negative.
abbrev is_below : ℕ → ℤ → Bool
is_below i (pos n) = ltb i n
is_below i (negsuc n) = false

-- The loop of the constructor of ThreadPoolHttpConnectionHandler, from `i`, for so many rounds at most.
unfoldable pub thread_loop : ℕ → ℕ → ℤ → Result (List Worker)
thread_loop zero i size = no_fuel
thread_loop (suc f) i size =
    let rest = thread_loop f (i + 1) size in
    if is_below i size then (rest >>= λ workers. ok (looks ∷ workers)) else ok []

thread_loop-from :
    (left i n f : ℕ) → i + left ≡ n → left < f → thread_loop f i (pos n) ≡ ok (new_threads left)
unfolding thread_loop
thread_loop-from left i n zero e h = absurd (omega arith)
thread_loop-from zero i n (suc f) e h =
    let stops : ltb i n ≡ false = ground arith in rw (stops) refl
thread_loop-from (suc left) i n (suc f) e h =
    let goes : ltb i n ≡ true = ground arith in
    rw (goes, thread_loop-from left (i + 1) n f (omega arith) (omega arith)) refl

-- The loop makes as many threads as a positive size says, in one round more.
pub thread_loop-new_threads : (n f : ℕ) → n < f → thread_loop f 0 (pos n) ≡ ok (new_threads n)
thread_loop-new_threads n f h = thread_loop-from n 0 n f (omega arith) h

-- The pool when its constructor has made the threads.
abbrev pub fresh : ℕ → Workers
fresh size = record { work_queue = []; popped = []; thread_pool = new_threads size; handled = [] }

module _ (handler : HttpRequest → Result HttpResponse) where
  -- What one thread does next in `handle_work_queue`.
  pub data Turn : Workers → Workers → Type 0 where
    -- the queue is empty: `cv.wait`
    dozes :
        (before after : List Worker) (s : Workers)
        → Turn
            (record s { work_queue = []; thread_pool = before ++ looks ∷ after })
            (record s { work_queue = []; thread_pool = before ++ sleeps ∷ after })
    -- `work_queue->pop()`, and the call of `handle_connection`
    pops :
        (before after : List Worker) (conn : Connection) (rest : List Connection) (s : Workers)
        → Turn
            (record s { work_queue = conn ∷ rest; thread_pool = before ++ looks ∷ after })
            (record s {
              work_queue = rest;
              popped = s.popped ++ conn ∷ [];
              thread_pool = before ++ handles conn (running conn) ∷ after;
            })
    -- a passage through the loop of `handle_connection`
    goes_on :
        (before after : List Worker) (conn now : Connection) (s : Workers)
        → Turn
            (record s { thread_pool = before ++ handles conn (running now) ∷ after })
            (record s { thread_pool = before ++ handles conn (round handler now) ∷ after })
    -- `handle_connection` has returned, or what it threw is caught
    loops :
        (before after : List Worker) (conn : Connection) (outcome : Result (Unit {0}) × Connection)
        (s : Workers)
        → Turn
            (record s { thread_pool = before ++ handles conn (ended outcome) ∷ after })
            (record s {
              thread_pool = before ++ looks ∷ after;
              handled = s.handled ++ (conn, outcome) ∷ [];
            })

  -- So many turns of threads, in any order, without a push.
  pub data Turns : ℕ → Workers → Workers → Type 0 where
    none_yet : (s : Workers) → Turns 0 s s
    then_turns : {n : ℕ} {s s' s'' : Workers} → Turn s s' → Turns n s' s'' → Turns (suc n) s s''

  -- The states of a pool, with what is pushed.
  pub data Pooled (size : ℕ) : List Connection → Workers → Type 0 where
    starts : Pooled size [] (fresh size)
    -- `ThreadPoolHttpConnectionHandler::handle_connection`, where `cv.notify_one` finds no worker that
    -- sleeps, and where it makes one look again
    queues :
        {pushed : List Connection} (s : Workers) (conn : Connection)
        → sleeping s.thread_pool ≡ 0
        → Pooled size pushed s
        → Pooled size (pushed ++ conn ∷ []) (record s { work_queue = s.work_queue ++ conn ∷ [] })
    queues_waking :
        {pushed : List Connection} (before after : List Worker) (s : Workers) (conn : Connection)
        → Pooled size pushed (record s { thread_pool = before ++ sleeps ∷ after })
        → Pooled size (pushed ++ conn ∷ []) (record s {
          work_queue = s.work_queue ++ conn ∷ [];
          thread_pool = before ++ looks ∷ after;
        })
    -- a worker wakes without being notified
    stirs :
        {pushed : List Connection} (before after : List Worker) (s : Workers)
        → Pooled size pushed (record s { thread_pool = before ++ sleeps ∷ after })
        → Pooled size pushed (record s { thread_pool = before ++ looks ∷ after })
    turns :
        {pushed : List Connection} {s s' : Workers}
        → Turn s s'
        → Pooled size pushed s
        → Pooled size pushed s'
