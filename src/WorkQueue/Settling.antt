-- ===== src/WorkQueue/Settling.antt =====
-- However its threads take turns, the pool in detail comes to handle what was pushed.
use cse124_httpserver.Base.{
  ℕ, zero, suc, ◌+◌, ◌≤◌, ◌<◌, ◌≡◌, ◌≢◌, ◌⊎◌, inl, inr, refl, sym, ap, ◌∙◌, List, [], ◌∷◌, ◌++◌,
  arith, All, Result, no_fuel, length, append-nil,
}
use cse124_httpserver.Http.{HttpRequest, HttpResponse}
use cse124_httpserver.Connection.{Connection}
use cse124_httpserver.Connection.Termination.{weight, handle_connection-ends}
use cse124_httpserver.Connection.Threads.{Thread, running, ended}
use cse124_httpserver.WorkQueue.Fairness.{Steps-IsSound}
use cse124_httpserver.WorkQueue.Workers.{
  Worker, looks, handles, Workers, looking, handling, Turn, dozes, pops, goes_on, loops, Turns,
  none_yet, then_turns, Pooled, turns,
}
use cse124_httpserver.WorkQueue.Counting.{counted, find_looking, find_handling, Pooled-Steps}
use cse124_httpserver.WorkQueue.Handling.{WasHandled, WasDue, Pooled-IsAtWork, Pooled-accounted}
use cse124_httpserver.WorkQueue.Turning.{turn_bound, FairConnection, Pooled-FairState, Turns-left}

none_or_some : (n : ℕ) → (n ≡ 0) ⊎ (0 < n)
none_or_some zero = inl refl
none_or_some (suc n) = inr (omega arith)

module _ (handler : HttpRequest → Result HttpResponse) where
  -- Some thread can take a turn.
  abbrev pub CanTurn : Workers → Type 0
  CanTurn s = (t : Workers) × Turn handler s t

  -- A worker that looks pops a connection, or waits.
  looks-CanTurn :
      (queue : List Connection) (s : Workers) (before after : List Worker)
      → s.work_queue ≡ queue
      → s.thread_pool ≡ before ++ looks ∷ after
      → CanTurn s
  looks-CanTurn [] s before after e e' =
      let next : CanTurn (record s { work_queue = []; thread_pool = before ++ looks ∷ after }) =
        (_, dozes before after s) in
      rw (← e, ← e') at next
  looks-CanTurn (conn ∷ rest) s before after e e' =
      let next : CanTurn
          (record s { work_queue = conn ∷ rest; thread_pool = before ++ looks ∷ after }) =
        (_, pops before after conn rest s) in
      rw (← e, ← e') at next

  -- A worker that handles a connection goes on, or is back at the queue.
  handles-CanTurn :
      (thread : Thread) (s : Workers) (before after : List Worker) (conn : Connection)
      → s.thread_pool ≡ before ++ handles conn thread ∷ after
      → CanTurn s
  handles-CanTurn (running now) s before after conn e =
      let next : CanTurn (record s { thread_pool = before ++ handles conn (running now) ∷ after }) =
        (_, goes_on before after conn now s) in
      rw (← e) at next
  handles-CanTurn (ended outcome) s before after conn e =
      let next : CanTurn
          (record s { thread_pool = before ++ handles conn (ended outcome) ∷ after }) =
        (_, loops before after conn outcome s) in
      rw (← e) at next

  -- Some thread can take a turn, or none looks at the queue or handles a connection.
  turn_or_idle :
      (s : Workers) → CanTurn s ⊎ ((looking s.thread_pool ≡ 0) × (handling s.thread_pool ≡ 0))
  turn_or_idle s = elim (none_or_some (looking s.thread_pool)) [
    | inr some_look ↦
        let (before, after, e) = find_looking s.thread_pool some_look in
        inl (looks-CanTurn s.work_queue s before after refl e)
    | inl none_look ↦ elim (none_or_some (handling s.thread_pool)) [
      | inr some_busy ↦
          let (before, after, conn, thread, e) = find_handling s.thread_pool some_busy in
          inl (handles-CanTurn thread s before after conn e)
      | inl none_busy ↦ inr (none_look, none_busy)
    ]
  ]

  Turns-Pooled :
      (size : ℕ) (pushed : List Connection) (n : ℕ) (s s' : Workers)
      → Turns handler n s s'
      → Pooled handler size pushed s
      → Pooled handler size pushed s'
  Turns-Pooled size pushed _ _ _ (none_yet s) p = p
  Turns-Pooled size pushed _ s _ (then_turns {n = n} {s' = s'} {s'' = s''} turn later) p =
      Turns-Pooled size pushed n s' s'' later (turns turn p)

  idle_queue :
      (queue : List Connection) (ready busy : ℕ)
      → ready ≡ 0
      → busy ≡ 0
      → (queue ≡ []) ⊎ (0 < ready + busy)
      → queue ≡ []
  idle_queue queue ready busy none_look none_busy (inl empty) = empty
  idle_queue queue ready busy none_look none_busy (inr h) = absurd (omega arith)

  module _ (answers : (r : HttpRequest) → handler r ≢ no_fuel) where
    -- The call came to an end, and this is its outcome.
    abbrev pub HasEnded : Connection × (Result (Unit {0}) × Connection) → Type 0
    HasEnded (conn, outcome) = WasHandled handler (conn, outcome) × (outcome.0 ≢ no_fuel)

    WasDue-HasEnded :
        (handled : List (Connection × (Result (Unit {0}) × Connection)))
        → All (WasDue handler FairConnection) handled
        → All HasEnded handled
    WasDue-HasEnded [] done = tt
    WasDue-HasEnded ((conn, outcome) ∷ handled) ((fair, (k, h)), later) =
        let f = suc (weight conn) in
        let ends : outcome.0 ≢ no_fuel =
          rw (h f) at (handle_connection-ends handler answers (k + f) conn (omega arith) fair) in
        (((k, h), ends), WasDue-HasEnded handled later)

    -- If the handler of requests always ends, and no read of a connection that was pushed is cut
    -- short, then from every state that a pool with at least one thread reaches, the threads can take
    -- no more turns than `turn_bound` of it, in whatever order, with nothing more pushed and no thread
    -- waking unless it was notified; and while they can take no more turns, every connection that was
    -- pushed has been popped, in order, as many were handled, none is at work, and each that was
    -- handled has become what `handle_connection` makes of it alone, which came to an end.
    pub Pooled-settles :
        (size : ℕ) (pushed : List Connection) (n : ℕ) (s s' : Workers)
        → 0 < size
        → All FairConnection pushed
        → Pooled handler size pushed s
        → Turns handler n s s'
        → (n ≤ turn_bound s)
          × (CanTurn s'
              ⊎ ((s'.popped ≡ pushed)
                  × (length s'.handled ≡ length pushed)
                  × (handling s'.thread_pool ≡ 0)
                  × All HasEnded s'.handled))
    Pooled-settles size pushed n s s' some_thread fair p taken =
        let p' = Turns-Pooled size pushed n s s' taken p in
        let few =
          Turns-left handler answers n s s' taken
            (Pooled-FairState handler answers size pushed s fair p) in
        (
          omega (arith, few),
          elim (turn_or_idle s') [
            | inl can ↦ inl can
            | inr (none_look, none_busy) ↦
                let (order, _, sound) =
                  Steps-IsSound size pushed (counted s') some_thread
                    (Pooled-Steps handler size pushed s' p') in
                let empty = idle_queue s'.work_queue _ _ none_look none_busy sound in
                let all_popped : s'.popped ≡ pushed =
                  sym (append-nil s'.popped) ∙ ap (λ t. s'.popped ++ t) (sym empty) ∙ order in
                inr (
                  all_popped,
                  omega (arith, Pooled-accounted handler size pushed s' p', ap length all_popped),
                  none_busy,
                  WasDue-HasEnded s'.handled
                      (Pooled-IsAtWork handler FairConnection size pushed s' some_thread fair p').1,
                )
          ],
        )
