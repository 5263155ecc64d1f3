-- ===== src/Listener/Serving.antt =====
-- The listener in the event loop: when it stays.
use cse124_httpserver.Base.{
  ℕ, suc, ◌+◌, ◌==◌, ◌≡◌, inl, inr, refl, ap, Bool-cases, Option, none, some, List, [], ◌∷◌, ◌++◌,
  arith, if◌then◌else◌, ok,
}
use cse124_httpserver.Connection.Accepting.{Accept, accepted, accept_fails}
use cse124_httpserver.EventLoop.{Notified, returned, thrown, Pollable, ready, turn}
use cse124_httpserver.EventLoop.Turns.{idle, in_time, woken, successors, turn-ready}
use cse124_httpserver.Listener.{
  SocketConnection, Registered, listening, serving, next_serving, as_serving, notify_listener,
  notify_registered, accept_async, registered,
}

-- Whether the next call of `accept` fails.
abbrev pub failing : List (Accept (ℕ × ℕ)) → ℕ
failing (accepted conn ∷ accepts) = 0
failing _ = 1

module _ {ℓ} {Q : Type ℓ} where
  -- How many listeners there are.
  abbrev pub listeners : List (Registered Q) → ℕ
  listeners [] = 0
  listeners (listening accepts ∷ ps) = suc (listeners ps)
  listeners (serving q ∷ ps) = listeners ps

  abbrev pub failing_of : Registered Q → ℕ
  failing_of (listening accepts) = failing accepts
  failing_of (serving q) = 0

  -- How many listeners are notified and have a call of `accept` that fails.
  pub failed : List (Registered Q) → List ℕ → ℕ
  failed [] revents = 0
  failed (p ∷ cur) [] = 0
  failed (p ∷ cur) (r ∷ revents) =
      let rest = failed cur revents in if r == 0 then rest else failing_of p + rest

  listeners-append :
      (ps qs : List (Registered Q)) → listeners (ps ++ qs) ≡ listeners ps + listeners qs
  listeners-append [] qs = omega arith
  listeners-append (listening accepts ∷ ps) qs = omega (arith, listeners-append ps qs)
  listeners-append (serving q ∷ ps) qs = listeners-append ps qs

module _ {ℓ} {Q : Type ℓ} (pollable : Pollable Q) (callback : SocketConnection → Option Q) where
  listeners-in_time :
      (now : ℕ) (ps : List (Registered Q))
      → listeners (in_time (registered pollable callback) now ps) ≡ listeners ps
  unfolding in_time registered
  listeners-in_time now [] = refl
  listeners-in_time now (listening accepts ∷ ps) = ap suc (listeners-in_time now ps)
  listeners-in_time now (serving q ∷ ps) = elim (Bool-cases (pollable.past_deadline q now)) [
    | inl late ↦ rw late (listeners-in_time now ps)
    | inr kept ↦ rw kept (listeners-in_time now ps)
  ]

  listeners-serving :
      (q : Q) (n : Notified Q)
      → listeners (successors (registered pollable callback) (as_serving (q, n))) ≡ 0
  unfolding registered
  listeners-serving q thrown = refl
  listeners-serving q (returned none) = ground arith
  listeners-serving q (returned (some q')) = ground arith

  listeners-successors :
      (p : Registered Q) (r : ℕ)
      → listeners
            (successors (registered pollable callback) ((registered pollable callback).notify p r))
          + failing_of p
        ≡ listeners (p ∷ [])
  unfolding registered notify_registered notify_listener accept_async
  listeners-successors (listening []) r = refl
  listeners-successors (listening (accept_fails ∷ accepts)) r = refl
  listeners-successors (listening (accepted conn ∷ accepts)) r =
      elim (callback (record { client_sock = conn.0; client_remote_ip = conn.1 }))
        as (λ next.
          listeners (
              successors (registered pollable callback)
                (listening accepts, returned (next_serving next)))
            + 0
          ≡ 1) [ none ↦ refl | some q ↦ refl ]
  listeners-successors (serving q) r =
      let after = pollable.notify q r in rw (listeners-serving after.0 after.1) refl

  listeners-idle :
      (cur : List (Registered Q))
      → listeners (idle (registered pollable callback) cur []) ≡ listeners cur
  unfolding idle
  listeners-idle [] = refl
  listeners-idle (listening accepts ∷ cur) = ap suc (listeners-idle cur)
  listeners-idle (serving q ∷ cur) = listeners-idle cur

  listeners-split :
      (cur : List (Registered Q)) (revents : List ℕ)
      → listeners (idle (registered pollable callback) cur revents)
          + (listeners (woken (registered pollable callback) cur revents) + failed cur revents)
        ≡ listeners cur
  unfolding idle woken failed
  listeners-split [] revents = refl
  listeners-split (p ∷ cur) [] = omega (
    arith,
    listeners-idle cur,
    listeners-append (p ∷ []) (idle (registered pollable callback) cur []),
    listeners-append (p ∷ []) cur,
  )
  listeners-split (p ∷ cur) (r ∷ revents) = elim (Bool-cases (r == 0)) [
    | inl quiet ↦ rw quiet (
        omega (
          arith,
          listeners-split cur revents,
          listeners-append (p ∷ []) (idle (registered pollable callback) cur revents),
          listeners-append (p ∷ []) cur,
        ))
    | inr busy ↦ rw busy (
        omega (
          arith,
          listeners-split cur revents,
          listeners-append
              (successors (registered pollable callback)
                ((registered pollable callback).notify p r))
              (woken (registered pollable callback) cur revents),
          listeners-successors p r,
          listeners-append (p ∷ []) cur,
        ))
  ]

  -- One turn of the loop loses exactly the listeners that were notified and whose `accept` failed:
  -- a listener stays as long as its calls of `accept` succeed, whatever the connections do, and no
  -- later turn brings back one that is lost.
  pub turn-listeners :
      (revents : List ℕ) (now : ℕ) (cur next : List (Registered Q))
      → turn (registered pollable callback) (ready revents) now cur ≡ ok next
      → listeners next + failed cur revents ≡ listeners cur
  turn-listeners revents now cur next e =
      let all = registered pollable callback in
      let same : in_time all now (idle all cur revents) ++ woken all cur revents ≡ next =
        cc (turn-ready all revents now cur) in
      rw (← same) (
        omega (
          arith,
          listeners-append (in_time all now (idle all cur revents)) (woken all cur revents),
          listeners-in_time now (idle all cur revents),
          listeners-split cur revents,
        ))
