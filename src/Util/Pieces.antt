-- ===== src/Util/Pieces.antt =====
-- What `split` and `split_n` promise, and that `join` undoes them.
use cse124_httpserver.Base.{
  ℕ, zero, suc, ◌+◌, ◌≤◌, ◌<◌, pos, ◌≡◌, ◌≢◌, inl, inr, refl, ap, ◌∙◌, none, List, [], ◌∷◌, ◌++◌,
  append-nil, arith, length, take, drop, length-drop, length-append, All, Text, find_first,
  find_first-le, find_first-split, find_first_least, find_first-append_Lacks, find_first-Lacks,
  Lacks, drop-length_append, take-length_append, Option-cases, ok,
}
use cse124_httpserver.Util.{split_n, split, join}
use cse124_httpserver.Util.Split.{pieces, pieces-none, pieces-some, split_n-pieces, split-pieces}

pub join-singleton : (sep s : Text) → join sep (s ∷ []) ≡ s
unfolding join
join-singleton sep s = append-nil s

pub join-cons :
    (sep p q : Text) (ps : List Text) → join sep (p ∷ q ∷ ps) ≡ p ++ (sep ++ join sep (q ∷ ps))
unfolding join
join-cons sep p q ps = refl

-- `pieces` never returns the empty list.
pieces-ne_nil : (b : ℕ) (sep s : Text) → (q : Text) × (qs : List Text) × (pieces b sep s ≡ q ∷ qs)
unfolding pieces
pieces-ne_nil zero sep s = (s, [], refl)
pieces-ne_nil (suc b) sep s = elim (Option-cases (find_first sep s)) [
  | inl e ↦ (s, [], rw (e, pieces))
  | inr (i, e) ↦ (take i s, pieces b sep (drop (length sep) (drop i s)), rw (e, pieces))
]

join-cons_pieces :
    (b : ℕ) (sep p s : Text)
    → join sep (p ∷ pieces b sep s) ≡ p ++ (sep ++ join sep (pieces b sep s))
join-cons_pieces b sep p s = let (q, qs, e) = pieces-ne_nil b sep s in rw e (join-cons sep p q qs)

join-pieces : (b : ℕ) (sep s : Text) → join sep (pieces b sep s) ≡ s
join-pieces zero sep s = unfold pieces in join-singleton sep s
join-pieces (suc b) sep s = elim (Option-cases (find_first sep s)) [
  | inl e ↦ rw (pieces-none (suc b) sep s e) (join-singleton sep s)
  | inr (i, e) ↦
      rw
        (
          pieces-some b sep s e,
          join-cons_pieces b sep,
          join-pieces b sep (drop (length sep) (drop i s)),
        )
        (find_first-split sep s i e)
]

length-pieces : (b : ℕ) (sep s : Text) → length (pieces b sep s) ≤ b + 1
unfolding pieces
length-pieces zero sep s = omega arith
length-pieces (suc b) sep s = elim (Option-cases (find_first sep s)) [
  | inl e ↦ rw (e, pieces) (omega arith)
  | inr (i, e) ↦ rw (e, pieces) (omega (arith, length-pieces b sep (drop (length sep) (drop i s))))
]

-- `sep` stands nowhere in the text.
abbrev pub Free : Text → Text → Type 0
Free sep p = find_first sep p ≡ none

abbrev pub AllButLast {ℓ κ} : {A : Type ℓ} → (A → Type κ) → List A → Type κ
AllButLast P [] = Unit
AllButLast P (x ∷ []) = Unit
AllButLast P (x ∷ y ∷ xs) = P x × AllButLast P (y ∷ xs)

Free-short : (sep s : Text) → length s < length sep → Free sep s
Free-short sep s h = elim (Option-cases (find_first sep s)) [
  | inl e ↦ e
  | inr (i, e) ↦ absurd (omega (arith, find_first-le sep s i e))
]

ne_nil : (sep : Text) → 0 < length sep → sep ≢ []
ne_nil [] long = absurd (omega arith)
ne_nil (c ∷ p) long = λ e. cc

pieces-Free :
    (b : ℕ) (sep s : Text) → 0 < length sep → length s ≤ b → All (Free sep) (pieces b sep s)
pieces-Free zero sep s long h = unfold pieces in (Free-short sep s (omega arith), tt)
pieces-Free (suc b) sep s long h = elim (Option-cases (find_first sep s)) [
  | inl e ↦ rw (pieces-none (suc b) sep s e) (e, tt)
  | inr (i, e) ↦
      let rest = drop (length sep) (drop i s) in
      let less : length rest ≤ b =
        omega
          (arith, find_first-le sep s i e, length-drop (length sep) (drop i s), length-drop i s) in
      rw (pieces-some b sep s e)
        (find_first_least sep s i (ne_nil sep long) e, pieces-Free b sep rest long less)
]

AllButLast-cons :
    (b : ℕ) (sep p s : Text)
    → Free sep p
    → AllButLast (Free sep) (pieces b sep s)
    → AllButLast (Free sep) (p ∷ pieces b sep s)
AllButLast-cons b sep p s h = let (q, qs, e) = pieces-ne_nil b sep s in rw e (λ rest. (h, rest))

pieces-AllButLast : (b : ℕ) (sep s : Text) → 0 < length sep → AllButLast (Free sep) (pieces b sep s)
pieces-AllButLast zero sep s long = unfold pieces in tt
pieces-AllButLast (suc b) sep s long = elim (Option-cases (find_first sep s)) [
  | inl e ↦ rw (pieces-none (suc b) sep s e) tt
  | inr (i, e) ↦
      let rest = drop (length sep) (drop i s) in
      rw (pieces-some b sep s e) (
        AllButLast-cons b sep (take i s) rest (find_first_least sep s i (ne_nil sep long) e)
          (pieces-AllButLast b sep rest long))
]

-- On every text and every separator but the empty one, `split` returns a list whose parts hold
-- no separator, and which `join` turns back into the text.
pub split_lem :
    (s sep : Text)
    → 0 < length sep
    → (parts : List Text) × (split s sep ≡ ok parts) × (join sep parts ≡ s) × All (Free sep) parts
split_lem s sep long = (
  pieces (length s) sep s,
  split-pieces s sep long,
  join-pieces (length s) sep s,
  pieces-Free (length s) sep s long (omega arith),
)

-- With a count `n` of cuts, `split_n` returns at most `n + 1` parts, of which all but the last hold
-- no separator, and which `join` turns back into the text.
pub split_n_lem :
    (s sep : Text) (n : ℕ)
    → 0 < length sep
    → (parts : List Text) × (split_n s sep (pos n) ≡ ok parts)
      × (join sep parts ≡ s)
      × (length parts ≤ n + 1)
      × AllButLast (Free sep) parts
split_n_lem s sep n long = (
  pieces n sep s,
  split_n-pieces s sep n long,
  join-pieces n sep s,
  length-pieces n sep s,
  pieces-AllButLast n sep s long,
)

pub pieces-append :
    (b c : ℕ) (t x s : Text)
    → Lacks c x
    → pieces (suc b) (c ∷ t) (x ++ ((c ∷ t) ++ s)) ≡ x ∷ pieces b (c ∷ t) s
pieces-append b c t x s h =
    pieces-some b (c ∷ t) (x ++ ((c ∷ t) ++ s)) (find_first-append_Lacks c t x s h)
    ∙ rw (take-length_append x, drop-length_append x, drop-length_append t s)

pub pieces-join :
    (b c : ℕ) (t p : Text) (ps : List Text)
    → length ps ≤ b
    → All (Lacks c) (p ∷ ps)
    → pieces b (c ∷ t) (join (c ∷ t) (p ∷ ps)) ≡ p ∷ ps
pieces-join b c t p [] h l =
    rw join-singleton (pieces-none b (c ∷ t) p (find_first-Lacks c t p l.0))
pieces-join zero c t p (q ∷ ps) h l = absurd (omega arith)
pieces-join (suc b) c t p (q ∷ ps) h l =
    rw (join-cons, pieces-append b c t p _ l.0)
      (ap (◌∷◌ p) (pieces-join b c t q ps (omega arith) l.1))

length-join :
    (sep p : Text) (ps : List Text) → 0 < length sep → length ps ≤ length (join sep (p ∷ ps))
length-join sep p [] long = omega arith
length-join sep p (q ∷ ps) long = rw join-cons (
    omega (
      arith,
      length-append p (sep ++ join sep (q ∷ ps)),
      length-append sep (join sep (q ∷ ps)),
      length-join sep q ps long,
    ))

-- `split` finds the parts that `join` put together, if the separator's first byte is in none.
pub split-join :
    (c : ℕ) (t p : Text) (ps : List Text)
    → All (Lacks c) (p ∷ ps)
    → split (join (c ∷ t) (p ∷ ps)) (c ∷ t) ≡ ok (p ∷ ps)
split-join c t p ps h =
    split-pieces (join (c ∷ t) (p ∷ ps)) (c ∷ t) (omega arith)
    ∙ ap ok (pieces-join _ c t p ps (length-join (c ∷ t) p ps (omega arith)) h)
