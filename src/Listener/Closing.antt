-- ===== src/Listener/Closing.antt =====
-- A listener that is moved closes its socket once.
use cse124_httpserver.Base.{ℕ, suc, zero, ◌≡◌, refl, List, ◌++◌}
use cse124_httpserver.Listener.{SocketListener, move_listener, destroy_listener}

-- The sockets closed by the listeners that are left after so many moves.
closed_by : ℕ → SocketListener → List ℕ
closed_by zero listener = destroy_listener listener
closed_by (suc n) listener =
    destroy_listener (move_listener listener).1 ++ closed_by n (move_listener listener).0

closed_by-once :
    (n : ℕ) (listener : SocketListener) → closed_by n listener ≡ destroy_listener listener
unfolding closed_by
closed_by-once zero listener = refl
closed_by-once (suc n) listener = closed_by-once n (move_listener listener).0
