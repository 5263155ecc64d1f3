-- ===== src/Util/Split.antt =====
-- `split` and `split_n` against a recursion on what is left of the text.
use cse124_httpserver.Base.{
  ℕ, zero, suc, ◌+◌, ◌-◌, ◌≤◌, ◌<◌, ℤ, pos, negsuc, true, false, ◌≡◌, inl, inr, refl, sym, ap, ◌∙◌,
  Option, none, some, List, [], ◌∷◌, ◌++◌, append_assoc, arith, length, take, drop, take_all,
  drop-drop, length-drop, length-append, Text, find_first, find, shift, find_first-le, Option-cases,
  ok, lt→ltb, le→leb, text_eq,
}
use cse124_httpserver.Util.{substr, may_split, max_pos, split_loop, split_n, split}

-- At most `b` cuts, each at the first separator left.
unfoldable pub pieces : ℕ → Text → Text → List Text
pieces zero sep s = s ∷ []
pieces (suc b) sep s = elim (find_first sep s) [
  | none ↦ s ∷ []
  | some i ↦ take i s ∷ pieces b sep (drop (length sep) (drop i s))
]

pub pieces-none : (b : ℕ) (sep s : Text) → find_first sep s ≡ none → pieces b sep s ≡ s ∷ []
unfolding pieces
pieces-none zero sep s h = refl
pieces-none (suc b) sep s h = rw (h, pieces)

pub pieces-some :
    (b : ℕ) (sep s : Text) {i : ℕ}
    → find_first sep s ≡ some i
    → pieces (suc b) sep s ≡ take i s ∷ pieces b sep (drop (length sep) (drop i s))
pieces-some b sep s h = unfold pieces in rw (h, pieces)

-- The budget that the loop has left, after `size` cuts and with `rest` bytes to go.
abbrev Allows : ℤ → ℕ → ℕ → ℕ → Type 0
Allows (pos n) size b rest = n ≡ size + b
Allows (negsuc _) size b rest = rest ≤ b

may_split-suc : (n : ℤ) (size b rest : ℕ) → Allows n size (suc b) rest → may_split n size ≡ true
may_split-suc (pos n) size b rest h = lt→ltb size n (omega arith)
may_split-suc (negsuc _) size b rest h = refl

may_split_zero :
    (n : ℤ) (size rest : ℕ) → 0 < rest → Allows n size 0 rest → may_split n size ≡ false
may_split_zero (pos n) size rest p h = ground arith
may_split_zero (negsuc _) size rest p h = absurd (omega arith)

Allows-next :
    (n : ℤ) (size b rest rest' : ℕ)
    → rest' < rest
    → Allows n size (suc b) rest
    → Allows n (size + 1) b rest'
Allows-next (pos n) size b rest rest' p h = omega arith
Allows-next (negsuc _) size b rest rest' p h = omega arith

substr_rest :
    (s : Text) (start : ℕ) → start ≤ length s → substr s start (length s) ≡ ok (drop start s)
unfolding substr
substr_rest s start h =
    rw (le→leb _ _ h)
      (ap ok (take_all (length s) (drop start s) (omega (arith, length-drop start s))))

substr_part :
    (s : Text) (start n : ℕ) → start ≤ length s → substr s start n ≡ ok (take n (drop start s))
unfolding substr
substr_part s start n h = rw (le→leb _ _ h)

find_at :
    (s sep : Text) (start : ℕ)
    → start ≤ length s
    → find s sep start ≡ shift start (find_first sep (drop start s))
unfolding find
find_at s sep start h = rw (le→leb _ _ h)

max_pos-shift : (o : Option ℕ) (k m : ℕ) → m ≤ k → max_pos (shift k o) m ≡ shift k o
max_pos-shift none k m h = refl
max_pos-shift (some i) k m h = ground arith

max_pos-find :
    (s sep : Text) (k m : ℕ) → k ≤ length s → m ≤ k → max_pos (find s sep k) m ≡ find s sep k
max_pos-find s sep k m within h = rw (find_at s sep k within) (max_pos-shift _ k m h)

module _ (s sep : Text) (n : ℤ) (long : 0 < length sep) where
  found_within :
      (start i : ℕ)
      → start ≤ length s
      → find_first sep (drop start s) ≡ some i
      → start + i + length sep ≤ length s
  found_within start i within e =
      omega (arith, find_first-le sep (drop start s) i e, length-drop start s)

  after :
      (start i : ℕ) → drop (start + i + length sep) s ≡ drop (length sep) (drop i (drop start s))
  after start i = sym (
      ap (drop (length sep)) (drop-drop i start (start + i) s refl)
      ∙ drop-drop (length sep) (start + i) (start + i + length sep) s refl)

  split_loop_last :
      (f start : ℕ) (strs : List Text) (b : ℕ)
      → start ≤ length s
      → find_first sep (drop start s) ≡ none
      → split_loop (suc f) s sep n strs start (find s sep start)
        ≡ ok (strs ++ pieces b sep (drop start s))
  split_loop_last f start strs b within e =
      rw (find_at s sep start within, e, pieces-none b sep (drop start s) e)
        (unfold split_loop in rw (substr_rest s start within))

  split_loop_stop :
      (f start i : ℕ) (strs : List Text)
      → start ≤ length s
      → find_first sep (drop start s) ≡ some i
      → may_split n (length strs) ≡ false
      → split_loop (suc f) s sep n strs start (find s sep start)
        ≡ ok (strs ++ pieces 0 sep (drop start s))
  split_loop_stop f start i strs within e stop =
      let inside = lt→ltb (start + i) (length s) (omega (arith, found_within start i within e)) in
      rw (find_at s sep start within, e)
        (unfold split_loop pieces in rw (inside, stop, substr_rest s start within))

  split_loop_next :
      (f start i : ℕ) (strs : List Text)
      → start ≤ length s
      → find_first sep (drop start s) ≡ some i
      → may_split n (length strs) ≡ true
      → split_loop (suc f) s sep n strs start (find s sep start)
        ≡ split_loop f s sep n
            (strs ++ take i (drop start s) ∷ [])
            (start + i + length sep)
            (find s sep (start + i + length sep))
  split_loop_next f start i strs within e go =
      let end = found_within start i within e in
      let inside = lt→ltb (start + i) (length s) (omega arith) in
      let width : start + i - start ≡ i = omega arith in
      let onwards = max_pos-find s sep (start + i + length sep) (start + i + 1) end (omega arith) in
      rw (find_at s sep start within, e)
        (unfold split_loop in rw (inside, go, width, substr_part s start i within, onwards))

  pieces_step :
      (start i : ℕ) (strs : List Text) (b : ℕ)
      → find_first sep (drop start s) ≡ some i
      → ok ((strs ++ take i (drop start s) ∷ []) ++ pieces b sep (drop (start + i + length sep) s))
        ≡ ok (strs ++ pieces (suc b) sep (drop start s))
  pieces_step start i strs b e =
      rw (pieces-some b sep (drop start s) e, append_assoc)
        (ap (λ r. ok (strs ++ (take i (drop start s) ∷ pieces b sep r))) (after start i))

  split_loop-pieces :
      (f start : ℕ) (strs : List Text) (b : ℕ)
      → start ≤ length s
      → length (drop start s) < f
      → Allows n (length strs) b (length (drop start s))
      → split_loop f s sep n strs start (find s sep start)
        ≡ ok (strs ++ pieces b sep (drop start s))
  split_loop-pieces zero start strs b within fuel budget = absurd (omega arith)
  split_loop-pieces (suc f) start strs zero within fuel budget =
      elim (Option-cases (find_first sep (drop start s))) [
        | inl e ↦ split_loop_last f start strs zero within e
        | inr (i, e) ↦
            let end = found_within start i within e in
            let left : 0 < length (drop start s) = omega (arith, length-drop start s) in
            split_loop_stop f start i strs within e
              (may_split_zero n (length strs) (length (drop start s)) left budget)
      ]
  split_loop-pieces (suc f) start strs (suc b) within fuel budget =
      elim (Option-cases (find_first sep (drop start s))) [
        | inl e ↦ split_loop_last f start strs (suc b) within e
        | inr (i, e) ↦
            let end = found_within start i within e in
            let start' = start + i + length sep in
            let rest : length (drop start' s) < length (drop start s) =
              omega (arith, length-drop start s, length-drop start' s) in
            let budget' : Allows n (length (strs ++ take i (drop start s) ∷ [])) b
                (length (drop start' s)) =
              rw (length-append strs (take i (drop start s) ∷ [])) (
                Allows-next n (length strs) b (length (drop start s)) (length (drop start' s)) rest
                  budget) in
            split_loop_next f start i strs within e
              (may_split-suc n (length strs) b (length (drop start s)) budget)
            ∙ split_loop-pieces f start' (strs ++ take i (drop start s) ∷ []) b end (omega arith)
                budget'
            ∙ pieces_step start i strs b e
      ]

not-empty : (sep : Text) → 0 < length sep → text_eq sep [] ≡ false
unfolding text_eq
not-empty [] long = absurd (omega arith)
not-empty (c ∷ p) long = refl

-- `split_n` with a count of cuts.
pub split_n-pieces :
    (s sep : Text) (n : ℕ) → 0 < length sep → split_n s sep (pos n) ≡ ok (pieces n sep s)
split_n-pieces s sep n long =
    let run =
      split_loop-pieces s sep (pos n) long (suc (length s)) 0 [] n (omega arith) (omega arith)
        (omega arith) in
    unfold split_n in rw (not-empty sep long) run

pub split-pieces : (s sep : Text) → 0 < length sep → split s sep ≡ ok (pieces (length s) sep s)
split-pieces s sep long =
    let run =
      split_loop-pieces s sep (negsuc 0) long (suc (length s)) 0 [] (length s) (omega arith)
        (omega arith) (omega arith) in
    unfold split in rw (not-empty sep long) run
