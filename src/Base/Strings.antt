-- ===== src/Base/Strings.antt =====
-- A `std::string` as the list of its bytes, and the members of `std::string` that the server calls.
-- `npos` is `none`: it lies beyond every position.
use Prim.Native.Nat.{ℕ, zero, suc, ◌+◌, ◌≤◌}
use Prim.Native.Char.{code}
use Prim.Native.String.{String}
use mathlib.Core.Path.{◌∙◌, ◌≡◌, refl, ap, sym}
use mathlib.Core.Logic.{◌↔◌, ◌≢◌, ◌⊎◌, inl, inr}
use mathlib.Core.Bool.{Bool, true, false, ◌&&◌}
use mathlib.Core.Option
use mathlib.Core.Option.{Option, none, some}
use mathlib.Core.List.{append-nil, append_assoc, List, [], ◌∷◌, ◌++◌}
use native.Mathlib.Omega.{arith}
use cse124_httpserver.Base.Tests.{leb, le→leb, ◌==◌, if◌then◌else◌, ==_iff, Bool-cases}
use cse124_httpserver.Base.Lists.{length-take, length, take, drop, All}

abbrev pub Text : Type 0
Text = List ℕ

-- The bytes of a literal, all of which are ASCII.
abbrev pub codes : String → Text
codes String.[] = []
codes (String.◌∷◌ c s) = code c ∷ codes s

-- `==` on strings.
unfoldable pub text_eq : Text → Text → Bool
text_eq [] [] = true
text_eq (x ∷ xs) (y ∷ ys) = x == y && text_eq xs ys
text_eq _ _ = false

pub text_eq_iff : (a b : Text) → (text_eq a b ≡ true) ↔ (a ≡ b)
unfolding text_eq
text_eq_iff (x ∷ a) (y ∷ b) = ground (arith, text_eq_iff a b)
text_eq_iff _ _ = ground arith

pub text_eq_refl : (a : Text) → text_eq a a ≡ true
text_eq_refl a = (text_eq_iff a a).1 refl

unfoldable pub is_prefix : Text → Text → Bool
is_prefix [] s = true
is_prefix (c ∷ p) [] = false
is_prefix (c ∷ p) (d ∷ s) = c == d && is_prefix p s

-- The first place where `sep` begins.
unfoldable pub find_first : Text → Text → Option ℕ
unfolding is_prefix
find_first sep [] = if is_prefix sep [] then some 0 else none
find_first sep (c ∷ s) = if is_prefix sep (c ∷ s) then some 0 else Option.map suc (find_first sep s)

abbrev pub shift : ℕ → Option ℕ → Option ℕ
shift k none = none
shift k (some i) = some (k + i)

-- `s.find(sep, start)`.
unfoldable pub find : Text → Text → ℕ → Option ℕ
unfolding find_first
find s sep start =
    if leb start (length s) then shift start (find_first sep (drop start s)) else none

pub is_prefix-take : (p s : Text) → is_prefix p s ≡ true → p ++ drop (length p) s ≡ s
unfolding is_prefix
is_prefix-take [] s h = refl
is_prefix-take (c ∷ p) [] h = cc
is_prefix-take (c ∷ p) (d ∷ s) h = ground (arith, is_prefix-take p s, ==_iff c d)

pub is_prefix-append : (p s : Text) → is_prefix p (p ++ s) ≡ true
unfolding is_prefix
is_prefix-append [] s = refl
is_prefix-append (c ∷ p) s = ground (arith, is_prefix-append p s)

find_first_cases :
    (sep : Text) (c : ℕ) (s : Text) {i : ℕ}
    → find_first sep (c ∷ s) ≡ some i
    → ((is_prefix sep (c ∷ s) ≡ true) × (i ≡ 0))
      ⊎ ((j : ℕ) × (is_prefix sep (c ∷ s) ≡ false) × (find_first sep s ≡ some j) × (i ≡ suc j))
unfolding find_first
find_first_cases sep c s h = elim (Bool-cases (is_prefix sep (c ∷ s))) [
  | inl e ↦ inl (e, ground arith)
  | inr e ↦
      let (j, found, k) = (Option.map-eq-some_iff _ _).0 (rw e at h) in inr (j, e, found, sym k)
]

find_first_nil :
    (sep : Text) {i : ℕ} → find_first sep [] ≡ some i → (is_prefix sep [] ≡ true) × (i ≡ 0)
unfolding find_first
find_first_nil sep h = ground arith

find_first-cons_none :
    (sep : Text) (c : ℕ) (s : Text)
    → is_prefix sep (c ∷ s) ≡ false
    → find_first sep s ≡ none
    → find_first sep (c ∷ s) ≡ none
unfolding find_first
find_first-cons_none sep c s h k = ground arith

-- What stands before the place, the separator, and what stands after it make up the text.
pub find_first-split :
    (sep s : Text) (i : ℕ)
    → find_first sep s ≡ some i
    → take i s ++ (sep ++ drop (length sep) (drop i s)) ≡ s
find_first-split sep [] zero h = is_prefix-take sep [] (unfold find_first in ground arith)
find_first-split sep [] (suc i) h = absurd (unfold find_first in ground arith)
find_first-split sep (c ∷ s) i h = elim (find_first_cases sep c s h) [
  | inl (e, k) ↦ rw k (is_prefix-take sep (c ∷ s) e)
  | inr (j, _, found, k) ↦ rw k (ap (◌∷◌ c) (find_first-split sep s j found))
]

is_prefix-le : (p s : Text) → is_prefix p s ≡ true → length p ≤ length s
unfolding is_prefix
is_prefix-le [] s h = omega arith
is_prefix-le (c ∷ p) [] h = cc
is_prefix-le (c ∷ p) (d ∷ s) h = ground (arith, is_prefix-le p s)

-- The place and the separator lie within the text.
pub find_first-le : (sep s : Text) (i : ℕ) → find_first sep s ≡ some i → i + length sep ≤ length s
find_first-le sep [] i h = let (e, k) = find_first_nil sep h in omega (arith, is_prefix-le sep [] e)
find_first-le sep (c ∷ s) i h = elim (find_first_cases sep c s h) [
  | inl (e, k) ↦ omega (arith, is_prefix-le sep (c ∷ s) e)
  | inr (j, _, found, k) ↦ omega (arith, find_first-le sep s j found)
]

is_prefix_of_take : (p s : Text) (n : ℕ) → is_prefix p (take n s) ≡ true → is_prefix p s ≡ true
unfolding is_prefix
is_prefix_of_take [] s n h = refl
is_prefix_of_take (c ∷ p) s zero h = cc
is_prefix_of_take (c ∷ p) [] (suc n) h = cc
is_prefix_of_take (c ∷ p) (d ∷ s) (suc n) h = ground (arith, is_prefix_of_take p s n)

not_prefix_of_take : (p s : Text) (n : ℕ) → is_prefix p s ≡ false → is_prefix p (take n s) ≡ false
not_prefix_of_take p s n h = ground (arith, is_prefix_of_take p s n)

-- The first place is the first: no separator stands within what comes before it.
pub find_first_least :
    (sep s : Text) (i : ℕ) → sep ≢ [] → find_first sep s ≡ some i → find_first sep (take i s) ≡ none
find_first_least [] s i ne h = absurd (ne refl)
find_first_least (h ∷ t) s zero ne e = unfold find_first in refl
find_first_least (h ∷ t) [] (suc i) ne e = unfold find_first in refl
find_first_least (h ∷ t) (c ∷ s) (suc i) ne e = elim (find_first_cases (h ∷ t) c s e) [
  | inl (_, k) ↦ absurd (omega arith)
  | inr (j, miss, found, k) ↦
      let same : i ≡ j = omega arith in
      rw same (
        find_first-cons_none (h ∷ t) c (take j s) (not_prefix_of_take (h ∷ t) (c ∷ s) (suc j) miss)
          (find_first_least (h ∷ t) s j ne found))
]

abbrev pub Lacks : ℕ → Text → Type 0
Lacks c = All (λ d. d ≢ c)

pub find_first-Lacks : (c : ℕ) (p x : Text) → Lacks c x → find_first (c ∷ p) x ≡ none
unfolding find_first
find_first-Lacks c p [] h = refl
find_first-Lacks c p (d ∷ x) h = ground (arith, find_first-Lacks c p x h.1)

pub find_first-append_Lacks :
    (c : ℕ) (p x s : Text) → Lacks c x → find_first (c ∷ p) (x ++ ((c ∷ p) ++ s)) ≡ some (length x)
unfolding find_first
find_first-append_Lacks c p [] s h = ground (arith, is_prefix-append p s)
find_first-append_Lacks c p (d ∷ x) s h = ground (arith, find_first-append_Lacks c p x s h.1)

is_prefix-append_false :
    (p x y : Text) → is_prefix p x ≡ false → length p ≤ length x → is_prefix p (x ++ y) ≡ false
unfolding is_prefix
is_prefix-append_false [] x y h k = cc
is_prefix-append_false (c ∷ p) [] y h k = absurd (omega arith)
is_prefix-append_false (c ∷ p) (d ∷ x) y h k = ground (arith, is_prefix-append_false p x y)

is_prefix-append_true : (p x y : Text) → is_prefix p x ≡ true → is_prefix p (x ++ y) ≡ true
unfolding is_prefix
is_prefix-append_true [] x y h = refl
is_prefix-append_true (c ∷ p) [] y h = cc
is_prefix-append_true (c ∷ p) (d ∷ x) y h = ground (arith, is_prefix-append_true p x y)

find_first_here : (sep x : Text) → is_prefix sep x ≡ true → find_first sep x ≡ some 0
unfolding find_first
find_first_here sep [] h = rw h
find_first_here sep (c ∷ x) h = rw h

find_first_later :
    (sep x : Text) (c j : ℕ)
    → is_prefix sep (c ∷ x) ≡ false
    → find_first sep x ≡ some j
    → find_first sep (c ∷ x) ≡ some (suc j)
unfolding find_first
find_first_later sep x c j h e = rw (h, e)

-- More text behind does not change the first place.
pub find_first-append :
    (sep x y : Text) (i : ℕ) → find_first sep x ≡ some i → find_first sep (x ++ y) ≡ some i
find_first-append sep [] y i h =
    let (e, k) = find_first_nil sep h in
    rw k (find_first_here sep y (is_prefix-append_true sep [] y e))
find_first-append sep (c ∷ x) y i h = elim (find_first_cases sep c x h) [
  | inl (e, k) ↦ rw k (find_first_here sep (c ∷ (x ++ y)) (is_prefix-append_true sep (c ∷ x) y e))
  | inr (j, miss, found, k) ↦
      let room : length sep ≤ length (c ∷ x) = omega (arith, find_first-le sep x j found) in
      rw k (
        find_first_later sep (x ++ y) c j (is_prefix-append_false sep (c ∷ x) y miss room)
          (find_first-append sep x y j found))
]

find_first_within : (sep x : Text) → (j : ℕ) × (find_first sep (x ++ sep) ≡ some j)
find_first_within sep [] = (
  0,
  find_first_here sep sep (ap (is_prefix sep) (sym (append-nil sep)) ∙ is_prefix-append sep []),
)
find_first_within sep (c ∷ x) = elim (Bool-cases (is_prefix sep (c ∷ (x ++ sep)))) [
  | inl e ↦ (0, find_first_here sep (c ∷ (x ++ sep)) e)
  | inr e ↦
      let (j, found) = find_first_within sep x in
      (suc j, find_first_later sep (x ++ sep) c j e found)
]

-- What stands before the first place, with the separator behind it, has the separator at its end.
pub find_first_end :
    (sep s : Text) (i : ℕ)
    → find_first sep s ≡ some i
    → find_first sep (take i s ++ sep) ≡ some (length (take i s))
find_first_end sep s i e =
    let (j, found) = find_first_within sep (take i s) in
    let rest = drop (length sep) (drop i s) in
    let whole : (take i s ++ sep) ++ rest ≡ s =
      append_assoc (take i s) sep rest ∙ find_first-split sep s i e in
    let same : some j ≡ some i =
      sym (find_first-append sep (take i s ++ sep) rest j found) ∙ ap (find_first sep) whole ∙ e in
    let k : j ≡ i = ground arith in
    let within = find_first-le sep s i e in found ∙ ap some (k ∙ omega (arith, length-take i s))

shift_zero : (o : Option ℕ) → shift 0 o ≡ o
shift_zero none = refl
shift_zero (some i) = ap some (omega arith)

pub find_zero : (s sep : Text) → find s sep 0 ≡ find_first sep s
unfolding find
find_zero s sep = rw (le→leb 0 (length s) (omega arith)) (shift_zero (find_first sep s))
