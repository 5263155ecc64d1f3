-- ===== src/Tests/EventLoop.antt =====
-- The event loop on examples.
use cse124_httpserver.Base.{
  ℕ, ◌-◌, ◌≤◌, ◌≡◌, inl, inr, refl, arith, false, Bool-cases, none, [], ◌∷◌, ◌++◌, All, ◌==◌, ok,
}
use cse124_httpserver.EventLoop.{Pollable, returned, ready, turn, loop}
use cse124_httpserver.EventLoop.Turns.{successors, idle, in_time, woken, turn-ready}

-- A pollable that is done after so many notifications and has no deadline.
abbrev countdown : Pollable ℕ
countdown = record {
  is_done = λ n. n == 0;
  past_deadline = λ n now. false;
  notify = λ n revents. (n - 1, returned none);
}

counts_down : turn countdown (ready (0 ∷ 1 ∷ 1 ∷ [])) 0 (4 ∷ 1 ∷ 3 ∷ []) ≡ ok (4 ∷ 2 ∷ [])
unfolding turn
counts_down = refl

runs_out : loop countdown ((ready (1 ∷ []), 0) ∷ (ready (1 ∷ []), 0) ∷ []) (2 ∷ []) ≡ ok []
unfolding loop
runs_out = refl

countdown_stays : (n r : ℕ) → n ≤ 4 → All (λ k. k ≤ 4) (successors countdown (countdown.notify n r))
countdown_stays n r h = elim (Bool-cases (n - 1 == 0)) [
  | inl done ↦ rw done tt
  | inr more ↦ rw more (omega arith, tt)
]

turn-ready_example :
    turn countdown (ready (0 ∷ 1 ∷ [])) 0 (4 ∷ 1 ∷ [])
    ≡ ok (
        in_time countdown 0 (idle countdown (4 ∷ 1 ∷ []) (0 ∷ 1 ∷ []))
        ++ woken countdown (4 ∷ 1 ∷ []) (0 ∷ 1 ∷ []))
turn-ready_example = turn-ready countdown (0 ∷ 1 ∷ []) 0 (4 ∷ 1 ∷ [])
