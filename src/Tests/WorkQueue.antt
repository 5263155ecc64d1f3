-- ===== src/Tests/WorkQueue.antt =====
-- A pool of one thread that handles one connection.
use cse124_httpserver.Base.{
  ◌≤◌, ◌≢◌, ◌⊎◌, no_fuel, ◌+◌, ◌≡◌, refl, arith, List, [], ◌∷◌, All, ok, length,
}
use cse124_httpserver.Connection.Threads.{running, round}
use cse124_httpserver.Http.{HttpRequest}
use cse124_httpserver.WorkQueue.Fairness.{IsSound}
use cse124_httpserver.WorkQueue.Workers.{
  Worker, looks, handles, Workers, handling, fresh, Pooled, starts, turns, queues, pops, goes_on,
  loops, then_turns, none_yet,
}
use cse124_httpserver.WorkQueue.Counting.{counted}
use cse124_httpserver.WorkQueue.Handling.{WasHandled, Pooled-IsSound}
use cse124_httpserver.WorkQueue.Turning.{turn_bound}
use cse124_httpserver.WorkQueue.Settling.{CanTurn, HasEnded, Pooled-settles}
use cse124_httpserver.Tests.Connection.{receives, lines, answers_not_found}
use cse124_httpserver.Tests.Connection.Threads.{asks_namelessly, refused_namelessly, refuses}

abbrev pool_at : List Worker → Workers
pool_at workers = record {
  work_queue = [];
  popped = asks_namelessly ∷ [];
  thread_pool = workers;
  handled = [];
}

abbrev handled_one : Workers
handled_one = record (pool_at (looks ∷ [])) {
  handled = (asks_namelessly, (ok tt, refused_namelessly)) ∷ [];
}

one_turn :
    Pooled answers_not_found 1
      (asks_namelessly ∷ [])
      (pool_at (handles asks_namelessly (round answers_not_found asks_namelessly) ∷ []))
one_turn =
    turns
      (goes_on [] [] asks_namelessly asks_namelessly
        (pool_at (handles asks_namelessly (running asks_namelessly) ∷ [])))
      (turns (pops [] [] asks_namelessly [] (fresh 1))
        (queues (fresh 1) asks_namelessly refl starts))

one_handled : Pooled answers_not_found 1 (asks_namelessly ∷ []) handled_one
one_handled =
    turns (loops [] [] asks_namelessly (ok tt, refused_namelessly) (pool_at (looks ∷ [])))
      (rw (refuses) at one_turn)

Pooled-IsSound_example :
    IsSound 1 (asks_namelessly ∷ []) (counted handled_one)
    × (length handled_one.handled + handling handled_one.thread_pool ≡ length handled_one.popped)
    × All (WasHandled answers_not_found) handled_one.handled
Pooled-IsSound_example =
    Pooled-IsSound answers_not_found 1 (asks_namelessly ∷ []) handled_one (omega arith) one_handled

-- Two connections are pushed, and the thread pops the first.
abbrev two_queued : Workers
two_queued = record (fresh 1) { work_queue = asks_namelessly ∷ receives lines ∷ [] }

abbrev one_popped : Workers
one_popped = record (pool_at (handles asks_namelessly (running asks_namelessly) ∷ [])) {
  work_queue = receives lines ∷ [];
}

two_pushed : Pooled answers_not_found 1 (asks_namelessly ∷ receives lines ∷ []) two_queued
two_pushed =
    queues (record (fresh 1) { work_queue = asks_namelessly ∷ [] }) (receives lines) refl
      (queues (fresh 1) asks_namelessly refl starts)

answers_any : (r : HttpRequest) → answers_not_found r ≢ no_fuel
answers_any r = λ e. cc

Pooled-settles_example :
    (1 ≤ turn_bound two_queued)
    × (CanTurn answers_not_found one_popped
        ⊎ ((one_popped.popped ≡ asks_namelessly ∷ receives lines ∷ [])
            × (length one_popped.handled ≡ 2)
            × (handling one_popped.thread_pool ≡ 0)
            × All (HasEnded answers_not_found answers_any) one_popped.handled))
Pooled-settles_example =
    Pooled-settles answers_not_found answers_any 1 (asks_namelessly ∷ receives lines ∷ []) 1
      two_queued one_popped (omega arith) (((λ e. cc), tt), (((λ e. cc), ((λ e. cc), tt)), tt))
      two_pushed
      (then_turns (pops [] [] asks_namelessly (receives lines ∷ []) (fresh 1)) (none_yet _))
