-- ===== src/AsyncConnection/Writing.antt =====
-- What a write pollable has sent: always a front part of the message, and in the end all of it.
use cse124_httpserver.Base.{
  ℕ, zero, suc, ◌+◌, ◌-◌, ◌≤◌, ◌≡◌, ◌≢◌, min, inl, inr, refl, ap, ◌∙◌, true, Bool-cases, List, [],
  ◌∷◌, ◌++◌, append_assoc, arith, length, take, drop, take_all, All, ltb, Text,
}
use cse124_httpserver.AsyncConnection.{
  bufsize, Send, sent, send_blocks, send_fails, WritePollable, took, try_write,
}

-- The kernel takes at most what it is given, which is what is left of the message, or a full buffer.
abbrev pub AcceptedBy : ℕ → List Send → Type 0
AcceptedBy left [] = Unit
AcceptedBy left (sent n ∷ sends) = (n ≤ min left bufsize) × AcceptedBy (left - n) sends
AcceptedBy left (send_blocks ∷ sends) = Unit
AcceptedBy left (send_fails ∷ sends) = Unit

-- After `before`, the socket took the first `total_sent` bytes of the message.
abbrev pub HasSent : Text → WritePollable → Type 0
HasSent before w =
    (w.total_sent ≤ length w.message) × (w.wire ≡ before ++ take w.total_sent w.message)

-- `k` is a variable with an equation, since a sum of variables does not compute.
take-add : (m n k : ℕ) (s : Text) → k ≡ m + n → take m s ++ take n (drop m s) ≡ take k s
take-add zero n k s e = let same : k ≡ n = omega arith in rw same
take-add (suc m) n zero s e = absurd (omega arith)
take-add (suc m) zero (suc k) [] e = refl
take-add (suc m) (suc n) (suc k) [] e = refl
take-add (suc m) n (suc k) (c ∷ s) e = ap (◌∷◌ c) (take-add m n k s (omega arith))

took-HasSent :
    (before : Text) (w : WritePollable) (n : ℕ)
    → n ≤ length w.message - w.total_sent
    → HasSent before w
    → HasSent before (took w n)
took-HasSent before w n h (within, e) = (
  omega arith,
  rw e (
      append_assoc before _ _
      ∙ ap (◌++◌ before) (take-add w.total_sent n (w.total_sent + n) w.message refl)),
)

-- If each call of `send` takes at most what it is given, and the socket has the first `total_sent`
-- bytes of the message before `try_write`, it has so after it.
pub try_write-HasSent :
    (before : Text) (sends : List Send) (w : WritePollable)
    → AcceptedBy (length w.message - w.total_sent) sends
    → HasSent before w
    → HasSent before (try_write sends w).1
unfolding try_write
try_write-HasSent before [] w ok_sends h = h
try_write-HasSent before (send_blocks ∷ sends) w ok_sends h = h
try_write-HasSent before (send_fails ∷ sends) w ok_sends h = h
try_write-HasSent before (sent n ∷ sends) w (small, later) h =
    let h' = took-HasSent before w n (omega arith) h in
    let left : length w.message - w.total_sent - n ≡ length w.message - (w.total_sent + n) =
      omega arith in
    elim (Bool-cases (ltb (w.total_sent + n) (length w.message))) [
      | inl more ↦ rw more (try_write-HasSent before sends (took w n) (rw left at later) h')
      | inr all ↦ rw all h'
    ]

pub try_write-message :
    (sends : List Send) (w : WritePollable) → (try_write sends w).1.message ≡ w.message
unfolding try_write
try_write-message [] w = refl
try_write-message (send_blocks ∷ sends) w = refl
try_write-message (send_fails ∷ sends) w = refl
try_write-message (sent n ∷ sends) w =
    elim (Bool-cases (ltb (w.total_sent + n) (length w.message))) [
      | inl more ↦ rw more (try_write-message sends (took w n))
      | inr all ↦ rw all refl
    ]

sent-whole :
    (before : Text) (w : WritePollable)
    → length w.message ≤ w.total_sent
    → HasSent before w
    → w.wire ≡ before ++ w.message
sent-whole before w h (within, e) = e ∙ ap (◌++◌ before) (take_all w.total_sent w.message h)

-- If each call of `send` takes at most what it is given and none fails, and the socket has the first
-- `total_sent` bytes of the message before, then after a `try_write` that says it is done the socket
-- has the whole message, once.
pub try_write-whole :
    (before : Text) (sends : List Send) (w w' : WritePollable)
    → AcceptedBy (length w.message - w.total_sent) sends
    → All (λ s. s ≢ send_fails) sends
    → HasSent before w
    → try_write sends w ≡ (true, w')
    → w'.wire ≡ before ++ w.message
unfolding try_write
try_write-whole before [] w w' ok_sends good h e = cc
try_write-whole before (send_blocks ∷ sends) w w' ok_sends good h e = cc
try_write-whole before (send_fails ∷ sends) w w' ok_sends good h e = absurd (good.0 refl)
try_write-whole before (sent n ∷ sends) w w' (small, later) good h e =
    let h' = took-HasSent before w n (omega arith) h in
    let left : length w.message - w.total_sent - n ≡ length w.message - (w.total_sent + n) =
      omega arith in
    elim (Bool-cases (ltb (w.total_sent + n) (length w.message))) [
      | inl more ↦
          try_write-whole before sends (took w n) w' (rw left at later) good.1 h' (rw more at e)
      | inr all ↦
          let same : took w n ≡ w' = ap (λ x. x.1) (rw all at e) in
          rw (← same) (sent-whole before (took w n) (ground arith) h')
    ]
