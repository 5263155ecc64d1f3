-- ===== src/Base/Bits.antt =====
-- `bit_and` with a mask of leading ones, for words of every width.
use Prim.Native.Nat.{
  ℕ, zero, suc, ◌+◌, ◌*◌, ◌/◌, ◌%◌, ◌≤◌, ◌<◌, min, bit_and, digits, bit_and-bitwise,
}
use mathlib.Core.Path.{◌≡◌, refl, ap, sym, ◌∙◌}
use mathlib.Core.Bool.{Bool, true, ◌&&◌}
use native.Mathlib.Omega.{arith}

-- The recursion that `bit_and` stands for, on `fuel` binary digits.
abbrev and_on : ℕ → ℕ → ℕ → ℕ
and_on fuel a b = digits (λ _. 0) min fuel a b

and_on_enough : (a b k m : ℕ) → a ≤ k → a ≤ m → and_on k a b ≡ and_on m a b
and_on_enough zero b zero zero p q = refl
and_on_enough zero b zero (suc m) p q = refl
and_on_enough zero b (suc k) zero p q = refl
and_on_enough zero b (suc k) (suc m) p q = refl
and_on_enough (suc a) b zero m p q = absurd (omega arith)
and_on_enough (suc a) b (suc k) zero p q = absurd (omega arith)
and_on_enough (suc a) b (suc k) (suc m) p q =
    let half = suc a / 2 in
    ap (λ d. d * 2 + min (suc a % 2) (b % 2))
      (and_on_enough half (b / 2) k m (omega arith) (omega arith))

-- The lowest digit.
pub bit_and_digit : (a b : ℕ) → bit_and a b ≡ bit_and (a / 2) (b / 2) * 2 + min (a % 2) (b % 2)
bit_and_digit zero b = omega (arith, bit_and-bitwise 0 b, bit_and-bitwise 0 (b / 2))
bit_and_digit (suc a) b =
    let half = suc a / 2 in
    omega (
      arith,
      bit_and-bitwise (suc a) b,
      bit_and-bitwise half (b / 2),
      and_on_enough half (b / 2) a half (omega arith) (omega arith),
    )

-- `k` places to the left, and `k` places to the right.
unfoldable pub shift_left : ℕ → ℕ → ℕ
shift_left zero a = a
shift_left (suc k) a = shift_left k a * 2

unfoldable pub drop_bits : ℕ → ℕ → ℕ
drop_bits zero a = a
drop_bits (suc k) a = drop_bits k (a / 2)

-- `n` ones, and the bound of the numbers of `n` bits.
unfoldable pub ones : ℕ → ℕ
ones zero = 0
ones (suc n) = ones n * 2 + 1

unfoldable pub bound : ℕ → ℕ
bound zero = 1
bound (suc n) = bound n * 2

bit_and-shift_left :
    (k a m : ℕ) → bit_and a (shift_left k m) ≡ shift_left k (bit_and (drop_bits k a) m)
unfolding shift_left drop_bits
bit_and-shift_left zero a m = refl
bit_and-shift_left (suc k) a m =
    let half : shift_left k m * 2 / 2 ≡ shift_left k m = omega arith in
    omega (
      arith,
      bit_and_digit a (shift_left k m * 2),
      ap (bit_and (a / 2)) half,
      bit_and-shift_left k (a / 2) m,
    )

bit_and-ones : (n a : ℕ) → a < bound n → bit_and a (ones n) ≡ a
unfolding ones bound
bit_and-ones zero a h = let none_set : a ≡ 0 = omega arith in rw none_set
bit_and-ones (suc n) a h =
    let half : (ones n * 2 + 1) / 2 ≡ ones n = omega arith in
    omega (
      arith,
      bit_and_digit a (ones n * 2 + 1),
      ap (bit_and (a / 2)) half,
      bit_and-ones n (a / 2) (omega arith),
    )

pub drop_bits-lt : (k n a : ℕ) → a < shift_left k (bound n) → drop_bits k a < bound n
unfolding drop_bits shift_left
drop_bits-lt zero n a h = h
drop_bits-lt (suc k) n a h = drop_bits-lt k n (a / 2) (omega arith)

-- A mask of `n` ones above `k` zeros keeps the bits from the `k`th on.
pub bit_and-mask :
    (k n a : ℕ)
    → drop_bits k a < bound n
    → bit_and a (shift_left k (ones n)) ≡ shift_left k (drop_bits k a)
bit_and-mask k n a h =
    bit_and-shift_left k a (ones n) ∙ ap (shift_left k) (bit_and-ones n (drop_bits k a) h)

pub drop_bits-shift_left : (k a : ℕ) → drop_bits k (shift_left k a) ≡ a
unfolding drop_bits shift_left
drop_bits-shift_left zero a = refl
drop_bits-shift_left (suc k) a =
    let half : shift_left k a * 2 / 2 ≡ shift_left k a = omega arith in
    ap (drop_bits k) half ∙ drop_bits-shift_left k a

pub shift_left-injective : (k a b : ℕ) → shift_left k a ≡ shift_left k b → a ≡ b
shift_left-injective k a b e =
    sym (drop_bits-shift_left k a) ∙ ap (drop_bits k) e ∙ drop_bits-shift_left k b

-- Every value below `n` by evaluation.
unfoldable pub holds_below : (ℕ → Bool) → ℕ → Bool
holds_below test zero = true
holds_below test (suc bound) = holds_below test bound && test bound

pub holds_below-at :
    (test : ℕ → Bool) (bound i : ℕ) → i < bound → holds_below test bound ≡ true → test i ≡ true
unfolding holds_below
holds_below-at test (suc bound) i small e = ground (arith, holds_below-at test bound i)
holds_below-at test zero i small e = absurd (omega arith)
