-- ===== src/WorkQueue.antt =====
-- synchronized_queue.h, and the thread pool of connection_handlers.cpp. The mutex makes each passage
-- through `push` or `pop` one step. A worker is ready to look at the queue, waits on the condition
-- variable, or handles a connection; the workers are counted.
pub mod Fairness
pub mod Workers
pub mod Counting
pub mod Handling
pub mod Turning
pub mod Settling
use cse124_httpserver.Base.{ℕ, zero, suc, ◌+◌, List, [], ◌∷◌, ◌++◌}

-- `taken` is what was popped, in order.
pub record Pool {ℓ} (T : Type ℓ) : Type ℓ where
  pub queue : List T
  pub taken : List T
  pub ready : ℕ
  pub waiting : ℕ
  pub busy : ℕ

-- `ThreadPoolHttpConnectionHandler`: workers that begin with `pop`.
abbrev pub new_pool {ℓ} : {T : Type ℓ} → ℕ → Pool T
new_pool size = record { queue = []; taken = []; ready = size; waiting = 0; busy = 0 }

-- `notify_one`, of so many waiting workers: one looks again.
abbrev pub notify_one {ℓ} : {T : Type ℓ} → ℕ → Pool T → Pool T
notify_one zero s = s
notify_one (suc w) s = record s { waiting = w; ready = s.ready + 1 }

-- `SynchronizedQueue::push`
abbrev pub push {ℓ} : {T : Type ℓ} → T → Pool T → Pool T
push elem s = notify_one s.waiting (record s { queue = s.queue ++ elem ∷ [] })

-- The passages of a worker through `pop` and through `handle_work_queue`, with what is pushed.
pub data Steps {ℓ} {T : Type ℓ} (size : ℕ) : List T → Pool T → Type ℓ where
  start : Steps size [] (new_pool size)
  pushes :
      {pushed : List T} (s : Pool T) (elem : T)
      → Steps size pushed s
      → Steps size (pushed ++ elem ∷ []) (push elem s)
  -- the queue is empty: `cv.wait`
  waits :
      {pushed : List T} (r : ℕ) (s : Pool T)
      → Steps size pushed (record s { queue = []; ready = suc r })
      → Steps size pushed (record s { queue = []; ready = r; waiting = s.waiting + 1 })
  -- a waiting worker looks again without being notified
  wakes :
      {pushed : List T} (w : ℕ) (s : Pool T)
      → Steps size pushed (record s { waiting = suc w })
      → Steps size pushed (record s { waiting = w; ready = s.ready + 1 })
  -- `queue.front()` and `queue.pop()`
  takes :
      {pushed : List T} (r : ℕ) (elem : T) (rest : List T) (s : Pool T)
      → Steps size pushed (record s { queue = elem ∷ rest; ready = suc r })
      → Steps size pushed
          (record s { queue = rest; taken = s.taken ++ elem ∷ []; ready = r; busy = s.busy + 1 })
  -- `handle_connection` returns, or what it throws is caught
  finishes :
      {pushed : List T} (b : ℕ) (s : Pool T)
      → Steps size pushed (record s { busy = suc b })
      → Steps size pushed (record s { busy = b; ready = s.ready + 1 })
