-- ===== src/WorkQueue/Fairness.antt =====
-- What holds of the work queue and its workers in every state they reach.
use cse124_httpserver.Base.{
  ℕ, zero, suc, ◌+◌, ◌<◌, ◌≡◌, ◌⊎◌, inl, inr, refl, sym, ap, ◌∙◌, arith, List, [], ◌∷◌, ◌++◌,
  append_assoc,
}
use cse124_httpserver.WorkQueue.{
  Pool, notify_one, Steps, start, pushes, waits, wakes, takes, finishes,
}

-- Nothing is lost or reordered, no worker is lost, and while there is work some worker is not
-- waiting.
abbrev pub IsSound {ℓ} : {T : Type ℓ} → ℕ → List T → Pool T → Type ℓ
IsSound size pushed s =
    (s.taken ++ s.queue ≡ pushed)
    × (s.ready + s.waiting + s.busy ≡ size)
    × ((s.queue ≡ []) ⊎ (0 < s.ready + s.busy))

notify_one-IsSound {ℓ} :
    {T : Type ℓ} (size w : ℕ) (pushed : List T) (s : Pool T)
    → s.waiting ≡ w
    → 0 < size
    → s.taken ++ s.queue ≡ pushed
    → s.ready + s.waiting + s.busy ≡ size
    → IsSound size pushed (notify_one w s)
notify_one-IsSound size zero pushed s e some_worker order count = (order, count, inr (omega arith))
notify_one-IsSound size (suc w) pushed s e some_worker order count =
    (order, omega arith, inr (omega arith))

-- In every state that a pool with a worker reaches, what was taken and what is queued are, in
-- order, what was pushed; no worker is lost; and while the queue is not empty, some worker is not
-- waiting for it.
pub Steps-IsSound {ℓ} :
    {T : Type ℓ} (size : ℕ) (pushed : List T) (s : Pool T)
    → 0 < size
    → Steps size pushed s
    → IsSound size pushed s
Steps-IsSound size _ _ h start = (refl, omega arith, inl refl)
Steps-IsSound size _ _ h (pushes s elem before) =
    let (order, count, _) = Steps-IsSound size _ _ h before in
    notify_one-IsSound size s.waiting _ (record s { queue = s.queue ++ elem ∷ [] }) refl h
      (sym (append_assoc s.taken s.queue (elem ∷ [])) ∙ ap (λ t. t ++ elem ∷ []) order) count
Steps-IsSound size _ _ h (waits r s before) =
    let (order, count, _) = Steps-IsSound size _ _ h before in (order, omega arith, inl refl)
Steps-IsSound size _ _ h (wakes w s before) =
    let (order, count, _) = Steps-IsSound size _ _ h before in
    (order, omega arith, inr (omega arith))
Steps-IsSound size _ _ h (takes r elem rest s before) =
    let (order, count, _) = Steps-IsSound size _ _ h before in
    (append_assoc s.taken (elem ∷ []) rest ∙ order, omega arith, inr (omega arith))
Steps-IsSound size _ _ h (finishes b s before) =
    let (order, count, _) = Steps-IsSound size _ _ h before in
    (order, omega arith, inr (omega arith))
