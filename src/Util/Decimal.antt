-- ===== src/Util/Decimal.antt =====
-- Numbers in decimal: `to_string` of util.h, and the standard library's `std::stoi`.
use cse124_httpserver.Base.{
  ℕ, zero, suc, ◌+◌, ◌-◌, ◌*◌, ◌/◌, ◌%◌, ◌<◌, ◌≤◌, ap, ◌∙◌, subst, ◌≡◌, inl, inr, true, false, Bool,
  ◌||◌, ◌&&◌, [], ◌∷◌, ◌++◌, arith, All, All-append, Text, Bool-cases, ltb, leb, ◌==◌,
  if◌then◌else◌, ok, throw, Result, invalid_argument, out_of_range, ℤ, pos, negsuc,
}

to_digits : ℕ → ℕ → Text
to_digits zero n = []
to_digits (suc f) n =
    let more = to_digits f (n / 10) ++ (b'0' + n % 10) ∷ [] in
    if ltb n 10 then (b'0' + n) ∷ [] else more

-- What `buf << val` writes for a number; it has at most `n + 1` digits.
unfoldable pub to_string : ℕ → Text
unfolding to_digits
to_string n = to_digits (suc n) n

abbrev pub is_digit : ℕ → Bool
is_digit c = leb b'0' c && leb c b'9'

-- The value of the digits at the front.
unfoldable pub read_digits : ℕ → Text → ℕ
read_digits acc [] = acc
read_digits acc (c ∷ s) =
    let more = read_digits (acc * 10 + (c - b'0')) s in if is_digit c then more else acc

abbrev is_space : ℕ → Bool
is_space c = c == b' ' || leb 9 c && leb c 13

skip_spaces : Text → Text
skip_spaces [] = []
skip_spaces (c ∷ s) = let more = skip_spaces s in if is_space c then more else c ∷ s

abbrev starts_digit : Text → Bool
starts_digit [] = false
starts_digit (c ∷ s) = is_digit c

abbrev from_sign : Bool → ℕ → ℤ
from_sign false n = pos n
from_sign true zero = pos zero
from_sign true (suc n) = negsuc n

-- The digits of a text whose sign was read. An `int` has 32 bits.
signed : Bool → Text → Result ℤ
unfolding read_digits
signed minus s =
    if starts_digit s
    then (let n = read_digits 0 s in
        if leb n (if minus then 2147483648 else 2147483647)
        then ok (from_sign minus n)
        else throw out_of_range)
    else throw invalid_argument

after_spaces : Text → Result ℤ
unfolding signed
after_spaces [] = throw invalid_argument
after_spaces (c ∷ s) =
    if c == b'-' then signed true s else if c == b'+' then signed false s else signed false (c ∷ s)

unfoldable pub stoi : Text → Result ℤ
unfolding after_spaces skip_spaces
stoi s = after_spaces (skip_spaces s)

abbrev IsDigit : ℕ → Type 0
IsDigit c = is_digit c ≡ true

to_digits-IsDigit : (f n : ℕ) → All IsDigit (to_digits f n)
unfolding to_digits
to_digits-IsDigit zero n = tt
to_digits-IsDigit (suc f) n = elim (Bool-cases (ltb n 10)) [
  | inl small ↦ rw small (ground arith, tt)
  | inr big ↦ rw big (
      All-append IsDigit (to_digits f (n / 10)) _ (to_digits-IsDigit f (n / 10)) (ground arith, tt))
]

read_digits-snoc :
    (acc : ℕ) (s : Text) (d : ℕ)
    → All IsDigit s
    → d < 10
    → read_digits acc (s ++ (b'0' + d) ∷ []) ≡ read_digits acc s * 10 + d
unfolding read_digits
read_digits-snoc acc [] d h k = ground arith
read_digits-snoc acc (c ∷ s) d h k =
    ground (arith, read_digits-snoc (acc * 10 + (c - b'0')) s d h.1 k)

read_digits-to_digits : (f n : ℕ) → n < f → read_digits 0 (to_digits f n) ≡ n
read_digits-to_digits zero n h = absurd (omega arith)
read_digits-to_digits (suc f) n h = elim (Bool-cases (ltb n 10)) [
  | inl small ↦ unfold to_digits read_digits in ground arith
  | inr big ↦
      let shown : to_digits (suc f) n ≡ to_digits f (n / 10) ++ (b'0' + n % 10) ∷ [] =
        unfold to_digits in rw big in
      let last =
        read_digits-snoc 0 (to_digits f (n / 10)) (n % 10) (to_digits-IsDigit f (n / 10))
          (omega arith) in
      let front = read_digits-to_digits f (n / 10) (ground arith) in rw shown (omega arith)
]

-- A number written by `to_string` is read back.
pub read_digits-to_string : (n : ℕ) → read_digits 0 (to_string n) ≡ n
read_digits-to_string n = unfold to_string in read_digits-to_digits (suc n) n (omega arith)

-- What `to_string` writes has digits only.
pub to_string-IsDigit : (n : ℕ) → All (λ c. is_digit c ≡ true) (to_string n)
to_string-IsDigit n = unfold to_string in to_digits-IsDigit (suc n) n

-- A text of digits has no space or sign for `stoi` to take.
stoi_digits :
    (c : ℕ) (s : Text)
    → IsDigit c
    → read_digits 0 (c ∷ s) ≤ 2147483647
    → stoi (c ∷ s) ≡ ok (pos (read_digits 0 (c ∷ s)))
stoi_digits c s h small = unfold stoi in ground arith

to_digits-front :
    (f n c : ℕ) (s : Text)
    → ltb n 10 ≡ false
    → to_digits f (n / 10) ≡ c ∷ s
    → to_digits (suc f) n ≡ c ∷ (s ++ (b'0' + n % 10) ∷ [])
unfolding to_digits
to_digits-front f n c s big e = rw (big, e)

to_digits-ne_nil : (f n : ℕ) → n < f → (c : ℕ) × (s : Text) × (to_digits f n ≡ c ∷ s)
to_digits-ne_nil zero n h = absurd (omega arith)
to_digits-ne_nil (suc f) n h = elim (Bool-cases (ltb n 10)) [
  | inl small ↦ (b'0' + n, [], unfold to_digits in rw small)
  | inr big ↦
      let (c, s, e) = to_digits-ne_nil f (n / 10) (ground arith) in
      (c, s ++ (b'0' + n % 10) ∷ [], to_digits-front f n c s big e)
]

-- `std::stoi` reads back each number that an `int` can hold.
pub stoi-to_string : (n : ℕ) → n ≤ 2147483647 → stoi (to_string n) ≡ ok (pos n)
stoi-to_string n h =
    let (c, s, e) = to_digits-ne_nil (suc n) n (omega arith) in
    let shown : to_string n ≡ c ∷ s = unfold to_string in e in
    let back : read_digits 0 (c ∷ s) ≡ n = rw shown at (read_digits-to_string n) in
    let digits = subst (All IsDigit) shown (to_string-IsDigit n) in
    rw shown (stoi_digits c s digits.0 (rw back h) ∙ ap (λ k. ok (pos k)) back)
