-- ===== src/WorkQueue/Counting.antt =====
-- The pool in detail implements the counted pool, and handles each connection as `handle_connection`.
use cse124_httpserver.Base.{
  ◌<◌, ℕ, zero, suc, ◌+◌, ◌≡◌, refl, sym, ap, List, [], ◌∷◌, ◌++◌, arith, Result,
}
use cse124_httpserver.Http.{HttpRequest, HttpResponse}
use cse124_httpserver.Connection.{Connection}
use cse124_httpserver.Connection.Threads.{Thread, running, ended, round}
use cse124_httpserver.WorkQueue.{Pool, Steps, start, pushes, waits, wakes, takes, finishes}
use cse124_httpserver.WorkQueue.Workers.{
  Worker, looks, sleeps, handles, Workers, looking, sleeping, handling, new_threads, Pooled, starts,
  turns, queues, queues_waking, dozes, stirs, pops, goes_on, loops,
}

-- What WorkQueue keeps of the state.
abbrev pub counted : Workers → Pool Connection
counted s = record {
  queue = s.work_queue;
  taken = s.popped;
  ready = looking s.thread_pool;
  waiting = sleeping s.thread_pool;
  busy = handling s.thread_pool;
}

looking-append : (xs ys : List Worker) → looking (xs ++ ys) ≡ looking xs + looking ys
looking-append [] ys = omega arith
looking-append (looks ∷ xs) ys = omega (arith, looking-append xs ys)
looking-append (sleeps ∷ xs) ys = looking-append xs ys
looking-append (handles conn thread ∷ xs) ys = looking-append xs ys

sleeping-append : (xs ys : List Worker) → sleeping (xs ++ ys) ≡ sleeping xs + sleeping ys
sleeping-append [] ys = omega arith
sleeping-append (looks ∷ xs) ys = sleeping-append xs ys
sleeping-append (sleeps ∷ xs) ys = omega (arith, sleeping-append xs ys)
sleeping-append (handles conn thread ∷ xs) ys = sleeping-append xs ys

handling-append : (xs ys : List Worker) → handling (xs ++ ys) ≡ handling xs + handling ys
handling-append [] ys = omega arith
handling-append (looks ∷ xs) ys = handling-append xs ys
handling-append (sleeps ∷ xs) ys = handling-append xs ys
handling-append (handles conn thread ∷ xs) ys = omega (arith, handling-append xs ys)

Steps-counts {ℓ} :
    {T : Type ℓ} {size : ℕ} {pushed : List T} (s : Pool T) (ready waiting busy : ℕ)
    → s.ready ≡ ready
    → s.waiting ≡ waiting
    → s.busy ≡ busy
    → Steps size pushed s
    → Steps size pushed (record s { ready = ready; waiting = waiting; busy = busy })
Steps-counts s ready waiting busy r w b steps = rw (← r, ← w, ← b) steps

new_threads-looking : (size : ℕ) → looking (new_threads size) ≡ size
new_threads-looking zero = refl
new_threads-looking (suc size) = ap suc (new_threads-looking size)

new_threads-sleeping : (size : ℕ) → sleeping (new_threads size) ≡ 0
new_threads-sleeping zero = refl
new_threads-sleeping (suc size) = new_threads-sleeping size

pub new_threads-handling : (size : ℕ) → handling (new_threads size) ≡ 0
new_threads-handling zero = refl
new_threads-handling (suc size) = new_threads-handling size

-- What changes with one worker.
pub replaced :
    (before after : List Worker) (x y : Worker)
    → (looking (before ++ x ∷ after) + looking (y ∷ [])
        ≡ looking (before ++ y ∷ after) + looking (x ∷ []))
      × (sleeping (before ++ x ∷ after) + sleeping (y ∷ [])
          ≡ sleeping (before ++ y ∷ after) + sleeping (x ∷ []))
      × (handling (before ++ x ∷ after) + handling (y ∷ [])
          ≡ handling (before ++ y ∷ after) + handling (x ∷ []))
replaced before after x y = (
  omega (
    arith,
    looking-append before (x ∷ after),
    looking-append before (y ∷ after),
    looking-append (x ∷ []) after,
    looking-append (y ∷ []) after,
  ),
  omega (
    arith,
    sleeping-append before (x ∷ after),
    sleeping-append before (y ∷ after),
    sleeping-append (x ∷ []) after,
    sleeping-append (y ∷ []) after,
  ),
  omega (
    arith,
    handling-append before (x ∷ after),
    handling-append before (y ∷ after),
    handling-append (x ∷ []) after,
    handling-append (y ∷ []) after,
  ),
)

-- A worker that looks at the queue, where one is counted.
pub find_looking :
    (ws : List Worker)
    → 0 < looking ws
    → (before : List Worker) × (after : List Worker) × (ws ≡ before ++ looks ∷ after)
find_looking [] h = absurd (omega arith)
find_looking (looks ∷ ws) h = ([], ws, refl)
find_looking (sleeps ∷ ws) h =
    let (before, after, e) = find_looking ws h in (sleeps ∷ before, after, ap (λ t. sleeps ∷ t) e)
find_looking (handles conn thread ∷ ws) h =
    let (before, after, e) = find_looking ws h in
    (handles conn thread ∷ before, after, ap (λ t. handles conn thread ∷ t) e)

-- A worker that handles a connection, where one is counted.
pub find_handling :
    (ws : List Worker)
    → 0 < handling ws
    → (before : List Worker) × (after : List Worker) × (conn : Connection) × (thread : Thread) × (ws
        ≡ before ++ handles conn thread ∷ after)
find_handling [] h = absurd (omega arith)
find_handling (looks ∷ ws) h =
    let (before, after, conn, thread, e) = find_handling ws h in
    (looks ∷ before, after, conn, thread, ap (λ t. looks ∷ t) e)
find_handling (sleeps ∷ ws) h =
    let (before, after, conn, thread, e) = find_handling ws h in
    (sleeps ∷ before, after, conn, thread, ap (λ t. sleeps ∷ t) e)
find_handling (handles conn thread ∷ ws) h = ([], ws, conn, thread, refl)

module _ (handler : HttpRequest → Result HttpResponse) where
  pub Pooled-Steps :
      (size : ℕ) (pushed : List Connection) (s : Workers)
      → Pooled handler size pushed s
      → Steps size pushed (counted s)
  Pooled-Steps size _ _ starts =
      Steps-counts _ _ _ _ (sym (new_threads-looking size)) (sym (new_threads-sleeping size))
        (sym (new_threads-handling size)) start
  Pooled-Steps size _ _ (queues s conn none_sleeps p) =
      Steps-counts _ _ _ _ refl (sym none_sleeps) refl (
        pushes _ conn
          (Steps-counts (counted s) _ zero _ refl none_sleeps refl (Pooled-Steps size _ s p)))
  Pooled-Steps size _ _ (queues_waking {pushed = pushed} before after s conn p) =
      let (l, z, h) = replaced before after sleeps looks in
      let w = sleeping (before ++ looks ∷ after) in
      let ih = Pooled-Steps size pushed _ p in
      let same : sleeping (before ++ sleeps ∷ after) ≡ suc w = omega arith in
      Steps-counts _ _ _ _ (omega arith) refl (omega arith)
        (pushes _ conn (Steps-counts _ _ (suc w) _ refl same refl ih))
  Pooled-Steps size pushed _ (turns (dozes before after s) p) =
      let (l, z, h) = replaced before after looks sleeps in
      let r = looking (before ++ sleeps ∷ after) in
      let ih = Pooled-Steps size pushed _ p in
      Steps-counts _ _ _ _ refl (omega arith) (omega arith) (
        waits r (counted (record s { thread_pool = before ++ looks ∷ after }))
          (Steps-counts _ (suc r) _ _ (omega arith) refl refl ih))
  Pooled-Steps size pushed _ (stirs before after s p) =
      let (l, z, h) = replaced before after sleeps looks in
      let w = sleeping (before ++ looks ∷ after) in
      let ih = Pooled-Steps size pushed _ p in
      Steps-counts _ _ _ _ (omega arith) refl (omega arith) (
        wakes w (counted (record s { thread_pool = before ++ sleeps ∷ after }))
          (Steps-counts _ _ (suc w) _ refl (omega arith) refl ih))
  Pooled-Steps size pushed _ (turns (pops before after conn rest s) p) =
      let (l, z, h) = replaced before after looks (handles conn (running conn)) in
      let r = looking (before ++ handles conn (running conn) ∷ after) in
      let ih = Pooled-Steps size pushed _ p in
      Steps-counts _ _ _ _ refl (omega arith) (omega arith) (
        takes r conn rest (counted (record s { thread_pool = before ++ looks ∷ after }))
          (Steps-counts _ (suc r) _ _ (omega arith) refl refl ih))
  Pooled-Steps size pushed _ (turns (goes_on before after conn now s) p) =
      let (l, z, h) =
        replaced before after (handles conn (running now)) (handles conn (round handler now)) in
      Steps-counts _ _ _ _ (omega arith) (omega arith) (omega arith) (Pooled-Steps size pushed _ p)
  Pooled-Steps size pushed _ (turns (loops before after conn outcome s) p) =
      let (l, z, h) = replaced before after (handles conn (ended outcome)) looks in
      let b = handling (before ++ looks ∷ after) in
      let ih = Pooled-Steps size pushed _ p in
      Steps-counts _ _ _ _ (omega arith) (omega arith) refl (
        finishes b
          (counted (record s { thread_pool = before ++ handles conn (ended outcome) ∷ after }))
          (Steps-counts _ _ _ (suc b) refl refl (omega arith) ih))
