-- ===== src/Connection/Threads.antt =====
-- ThreadSpawningHttpConnectionHandler of connection_handlers.cpp: each connection is handled in a
-- thread of its own, and the threads take turns in any order. A passage through the loop of
-- `handle_connection` is one step: the threads share nothing that they change. That an exception
-- which leaves a thread ends the process is not modelled.
use cse124_httpserver.Base.{
  ℕ, suc, ◌+◌, ◌≡◌, refl, ◌∙◌, Bool, true, false, List, [], ◌∷◌, ◌++◌, All, All-append, All-split,
  arith, Result, ok, throw, undefined, no_fuel,
}
use cse124_httpserver.Http.{HttpRequest, HttpResponse}
use cse124_httpserver.Connection.{
  M, Connection, resume, lift, read_request, answer, serve_once, serve_loop, catch_all,
  handle_connection,
}

-- A thread in the loop, or how its function ended, and its connection.
pub data Thread : Type 0 where
  running : Connection → Thread
  ended : Result (Unit {0}) × Connection → Thread

module _ (handler : HttpRequest → Result HttpResponse) where
  -- The loop goes on, or the function ends, within its `catch` clauses.
  abbrev pub after_round : Result Bool × Connection → Thread
  after_round (ok true, c) = running c
  after_round (ok false, c) = ended (catch_all handler (ok tt, c))
  after_round (throw e, c) = ended (catch_all handler (throw e, c))
  after_round (undefined, c) = ended (undefined, c)
  after_round (no_fuel, c) = ended (no_fuel, c)

  -- A passage through the loop of `::handle_connection`.
  unfoldable pub round : Connection → Thread
  unfolding read_request answer catch_all
  round c = after_round (serve_once handler c)

  -- The threads, each with the connection that it was made for.
  pub data Spawned : List (Connection × Thread) → Type 0 where
    starts : Spawned []
    -- `ThreadSpawningHttpConnectionHandler::handle_connection`
    spawns :
        (threads : List (Connection × Thread)) (conn : Connection)
        → Spawned threads
        → Spawned (threads ++ (conn, running conn) ∷ [])
    -- a thread goes on
    rounds :
        (before after : List (Connection × Thread)) (conn now : Connection)
        → Spawned (before ++ (conn, running now) ∷ after)
        → Spawned (before ++ (conn, round now) ∷ after)

  -- What the thread's function comes to with so many passages more.
  abbrev rest_of : ℕ → Thread → Result (Unit {0}) × Connection
  rest_of fuel (running c) = handle_connection handler fuel c
  rest_of fuel (ended after) = after

  abbrev goes_on : ℕ → Bool → M (Unit {0})
  goes_on f again = elim again [ true ↦ serve_loop handler f | false ↦ lift (ok tt) ]

  after_round-rest_of :
      (f : ℕ) (x : Result Bool × Connection)
      → catch_all handler (resume x (goes_on f)) ≡ rest_of f (after_round x)
  unfolding handle_connection
  after_round-rest_of f (ok true, c) = refl
  after_round-rest_of f (ok false, c) = refl
  after_round-rest_of f (throw e, c) = refl
  after_round-rest_of f (undefined, c) = unfold catch_all in refl
  after_round-rest_of f (no_fuel, c) = unfold catch_all in refl

  round-rest_of :
      (f : ℕ) (c : Connection) → handle_connection handler (suc f) c ≡ rest_of f (round c)
  round-rest_of f c =
      unfold handle_connection serve_loop round in after_round-rest_of f (serve_once handler c)

  -- After some passages, the rest of the thread is the rest of the call.
  abbrev pub Follows : Connection × Thread → Type 0
  Follows (conn, thread) =
      (k : ℕ) × ((f : ℕ) → handle_connection handler (k + f) conn ≡ rest_of f thread)

  pub round-Follows :
      (conn now : Connection) → Follows (conn, running now) → Follows (conn, round now)
  round-Follows conn now (k, h) =
      let later : (f : ℕ) → suc k + f ≡ k + suc f = λ f. omega arith in
      (suc k, λ f. rw (later f) (h (suc f) ∙ round-rest_of f now))

  pub new-Follows : (conn : Connection) → Follows (conn, running conn)
  new-Follows conn =
      let none_yet : (f : ℕ) → 0 + f ≡ f = λ f. omega arith in (0, λ f. rw (none_yet f) refl)

  Spawned-Follows : (threads : List (Connection × Thread)) → Spawned threads → All Follows threads
  Spawned-Follows _ starts = tt
  Spawned-Follows _ (spawns threads conn s) =
      All-append Follows threads ((conn, running conn) ∷ []) (Spawned-Follows threads s)
        (new-Follows conn, tt)
  Spawned-Follows _ (rounds before after conn now s) =
      let (fore, (here, later)) =
        All-split Follows before ((conn, running now) ∷ after) (Spawned-Follows _ s) in
      All-append Follows before ((conn, round now) ∷ after) fore
        (round-Follows conn now here, later)

  -- In whatever order threads are made and take turns, a thread that has ended did to its connection
  -- what `handle_connection` does on that connection alone, with the same outcome.
  Spawned-handle_connection :
      (before after : List (Connection × Thread)) (conn : Connection)
      (outcome : Result (Unit {0}) × Connection)
      → Spawned (before ++ (conn, ended outcome) ∷ after)
      → (fuel : ℕ) × (handle_connection handler fuel conn ≡ outcome)
  Spawned-handle_connection before after conn outcome s =
      let (k, h) =
        (All-split Follows before ((conn, ended outcome) ∷ after) (Spawned-Follows _ s)).1.0 in
      (k + 0, h 0)
