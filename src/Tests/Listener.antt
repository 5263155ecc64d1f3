-- ===== src/Tests/Listener.antt =====
-- The listener in the event loop, on an example.
use cse124_httpserver.Base.{ℕ, ◌+◌, ◌≡◌, refl, false, some, none, List, [], ◌∷◌, ok}
use cse124_httpserver.Connection.Accepting.{accepted, accept_fails}
use cse124_httpserver.EventLoop.{Pollable, returned, ready, turn}
use cse124_httpserver.Listener.{Registered, listening, serving, registered}
use cse124_httpserver.Listener.Serving.{listeners, failed, turn-listeners}

-- Connections that ask for nothing.
abbrev idlers : Pollable ℕ
idlers = record {
  is_done = λ n. false;
  past_deadline = λ n now. false;
  notify = λ n revents. (n, returned none);
}

-- A connection is accepted, the next cannot be.
abbrev two_listen : List (Registered ℕ)
two_listen =
    listening (accepted (4, 7) ∷ [])
    ∷ listening (accept_fails ∷ accepted (5, 8) ∷ [])
    ∷ serving 9
    ∷ []

abbrev one_listens : List (Registered ℕ)
one_listens = listening [] ∷ serving 4 ∷ serving 9 ∷ []

listens :
    turn (registered idlers (λ conn. some conn.client_sock)) (ready (1 ∷ 1 ∷ 1 ∷ [])) 0 two_listen
    ≡ ok one_listens
unfolding turn registered
listens = refl

turn-listeners_example : listeners one_listens + failed two_listen (1 ∷ 1 ∷ 1 ∷ []) ≡ 2
turn-listeners_example =
    turn-listeners idlers (λ conn. some conn.client_sock) (1 ∷ 1 ∷ 1 ∷ []) 0 two_listen one_listens
      listens
