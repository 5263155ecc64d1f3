-- ===== src/EventLoop/Turns.antt =====
-- What one turn of the event loop keeps, drops and adds, and what the whole loop preserves.
use cse124_httpserver.Base.{
  ℕ, ◌≡◌, inl, inr, refl, sym, ◌∙◌, Bool-cases, none, some, List, [], ◌∷◌, ◌++◌, append_assoc,
  append-nil, All, All-append, ◌==◌, if◌then◌else◌, ok,
}
use cse124_httpserver.EventLoop.{
  Notified, returned, thrown, Pollable, Polled, ready, poll_failed, process_notified,
  process_pollable, process_all, keep_in_time, turn,
}

module _ {ℓ} {P : Type ℓ} (pollable : Pollable P) where
  -- What a notified pollable leaves: itself if it is not done, and the next one.
  abbrev pub successors : P × Notified P → List P
  successors (p, thrown) = []
  successors (p, returned none) = if pollable.is_done p then [] else p ∷ []
  successors (p, returned (some q)) = if pollable.is_done p then q ∷ [] else p ∷ q ∷ []

  -- The pollables that `poll` reports no event for.
  unfoldable pub idle : List P → List ℕ → List P
  idle [] revents = []
  idle (p ∷ cur) [] = p ∷ idle cur []
  idle (p ∷ cur) (r ∷ revents) = let rest = idle cur revents in if r == 0 then p ∷ rest else rest

  -- The pollables whose deadline is not past.
  unfoldable pub in_time : ℕ → List P → List P
  in_time now [] = []
  in_time now (p ∷ ps) =
      let rest = in_time now ps in if pollable.past_deadline p now then rest else p ∷ rest

  -- What the pollables that have an event leave.
  unfoldable pub woken : List P → List ℕ → List P
  woken [] revents = []
  woken (p ∷ cur) [] = []
  woken (p ∷ cur) (r ∷ revents) =
      let rest = woken cur revents in
      if r == 0 then rest else successors (pollable.notify p r) ++ rest

  process_notified-successors :
      (x : P × Notified P) (pollables : List P)
      → process_notified pollable x pollables ≡ pollables ++ successors x
  process_notified-successors (p, thrown) pollables = sym (append-nil pollables)
  process_notified-successors (p, returned none) pollables =
      elim (Bool-cases (pollable.is_done p)) [
        | inl done ↦ rw done (sym (append-nil pollables))
        | inr more ↦ rw more
      ]
  process_notified-successors (p, returned (some q)) pollables =
      elim (Bool-cases (pollable.is_done p)) [
        | inl done ↦ rw done
        | inr more ↦ rw more (append_assoc pollables (p ∷ []) (q ∷ []))
      ]

  woken_quiet : (cur : List P) → woken cur [] ≡ []
  unfolding woken
  woken_quiet [] = refl
  woken_quiet (p ∷ cur) = refl

  process_all-eq :
      (cur : List P) (revents : List ℕ) (skipped pollables : List P)
      → process_all pollable cur revents skipped pollables
        ≡ (skipped ++ idle cur revents, pollables ++ woken cur revents)
  unfolding process_all idle woken
  process_all-eq [] revents skipped pollables = rw (append-nil skipped, append-nil pollables)
  process_all-eq (p ∷ cur) [] skipped pollables =
      process_all-eq cur [] (skipped ++ p ∷ []) pollables ∙ rw (append_assoc, woken_quiet cur)
  process_all-eq (p ∷ cur) (r ∷ revents) skipped pollables = elim (Bool-cases (r == 0)) [
    | inl quiet ↦ rw quiet (
        process_all-eq cur revents (skipped ++ p ∷ []) pollables
        ∙ rw (append_assoc skipped (p ∷ []) _))
    | inr busy ↦ rw busy (
        process_all-eq cur revents skipped (process_pollable pollable p r pollables)
        ∙ rw (
          process_notified-successors (pollable.notify p r) pollables,
          append_assoc pollables _ _,
        ))
  ]

  keep_in_time-eq :
      (now : ℕ) (skipped new_pollables : List P)
      → keep_in_time pollable now skipped new_pollables ≡ new_pollables ++ in_time now skipped
  unfolding keep_in_time in_time
  keep_in_time-eq now [] new_pollables = sym (append-nil new_pollables)
  keep_in_time-eq now (p ∷ skipped) new_pollables =
      elim (Bool-cases (pollable.past_deadline p now)) [
        | inl late ↦ rw late (keep_in_time-eq now skipped new_pollables)
        | inr kept ↦ rw kept (
            keep_in_time-eq now skipped (new_pollables ++ p ∷ [])
            ∙ append_assoc new_pollables (p ∷ []) _)
      ]

  -- One turn leaves, in this order, the pollables without an event whose deadline is not past, and
  -- then, for each pollable with an event, itself if it is not done and the one it returns, or
  -- nothing if it throws.
  pub turn-ready :
      (revents : List ℕ) (now : ℕ) (cur : List P)
      → turn pollable (ready revents) now cur
        ≡ ok (in_time now (idle cur revents) ++ woken cur revents)
  unfolding turn
  turn-ready revents now cur =
      rw (process_all-eq cur revents [] [], keep_in_time-eq now (idle cur revents) [])

  module _ (I : P → Type ℓ)
      (kept : (p : P) (r : ℕ) → I p → All I (successors (pollable.notify p r))) where
    in_time-All : (now : ℕ) (ps : List P) → All I ps → All I (in_time now ps)
    unfolding in_time
    in_time-All now [] h = h
    in_time-All now (p ∷ ps) (here, later) = elim (Bool-cases (pollable.past_deadline p now)) [
      | inl late ↦ rw late (in_time-All now ps later)
      | inr fine ↦ rw fine (here, in_time-All now ps later)
    ]

    idle-All : (ps : List P) (revents : List ℕ) → All I ps → All I (idle ps revents)
    unfolding idle
    idle-All [] revents h = h
    idle-All (p ∷ ps) [] (here, later) = (here, idle-All ps [] later)
    idle-All (p ∷ ps) (r ∷ revents) (here, later) = elim (Bool-cases (r == 0)) [
      | inl quiet ↦ rw quiet (here, idle-All ps revents later)
      | inr busy ↦ rw busy (idle-All ps revents later)
    ]

    woken-All : (ps : List P) (revents : List ℕ) → All I ps → All I (woken ps revents)
    unfolding woken
    woken-All [] revents h = h
    woken-All (p ∷ ps) [] h = tt
    woken-All (p ∷ ps) (r ∷ revents) (here, later) = elim (Bool-cases (r == 0)) [
      | inl quiet ↦ rw quiet (woken-All ps revents later)
      | inr busy ↦ rw busy (
          All-append I (successors (pollable.notify p r)) (woken ps revents) (kept p r here)
            (woken-All ps revents later))
    ]

    -- A property of pollables that a notified pollable hands on to what it leaves holds of all
    -- pollables after a turn, if it holds of all before.
    pub turn-All :
        (polled : Polled) (now : ℕ) (cur next : List P)
        → All I cur
        → turn pollable polled now cur ≡ ok next
        → All I next
    turn-All poll_failed now cur next h e = absurd (unfold turn in cc)
    turn-All (ready revents) now cur next h e =
        let same : next ≡ in_time now (idle cur revents) ++ woken cur revents =
          cc (turn-ready revents now cur) in
        rw same (
          All-append I (in_time now (idle cur revents)) (woken cur revents)
            (in_time-All now _ (idle-All cur revents h)) (woken-All cur revents h))
