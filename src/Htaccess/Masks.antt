-- ===== src/Htaccess/Masks.antt =====
-- CIDR blocks: which prefix lengths make a mask, and what a block matches.
use Prim.Native.Nat.{bit_and}
use cse124_httpserver.Base.{
  ℕ, ◌-◌, ◌*◌, ◌%◌, ◌^◌, ◌≤◌, ◌<◌, ◌≡◌, ◌↔◌, refl, sym, ap, ◌∙◌, Bool, true, ℤ, pos, negsuc, ◌==◌,
  ==_iff, if◌then◌else◌, arith, shift_left, drop_bits, ones, bound, bit_and-mask, drop_bits-lt,
  shift_left-injective, holds_below, holds_below-at, runtime_error, ok, undefined, ◌>>=◌, check,
}
use cse124_httpserver.Htaccess.{bits_in_address, make_mask, CidrBlock, cidr_block, matches}

-- The value of the mask of `n` bits, as the source shifts it.
abbrev mask_word : ℕ → ℕ
mask_word n = if n == 0 then 0 else 0xFFFFFFFF * 2 ^ (bits_in_address - n) % 2 ^ 32

mask_table : holds_below (λ n. mask_word n == shift_left (32 - n) (ones n)) 33 ≡ true
unfolding holds_below shift_left ones
mask_table = refl

mask_word_lem : (n : ℕ) → n ≤ 32 → mask_word n ≡ shift_left (32 - n) (ones n)
mask_word_lem n h = (==_iff (mask_word n) _).0 (
    holds_below-at (λ n. mask_word n == shift_left (32 - n) (ones n)) 33 n (omega arith) mask_table)

make_mask-mask_word : (n : ℕ) → n ≤ 32 → make_mask (pos n) ≡ ok (mask_word n)
make_mask-mask_word n h = unfold make_mask in ground arith

pub make_mask_lem : (n : ℕ) → n ≤ 32 → make_mask (pos n) ≡ ok (shift_left (32 - n) (ones n))
make_mask_lem n h = make_mask-mask_word n h ∙ ap ok (mask_word_lem n h)

-- The prefix lengths of an address.
abbrev pub IsLength : ℤ → Type 0
IsLength (pos n) = n ≤ 32
IsLength (negsuc _) = ⊥

-- The shift in `make_mask` is undefined exactly for the lengths that are not from 0 to 32.
pub make_mask-undefined_iff : (length : ℤ) → (make_mask length ≡ undefined) ↔ (¬ IsLength length)
make_mask-undefined_iff (negsuc n) = (λ _ h. h, λ _. unfold make_mask in refl)
make_mask-undefined_iff (pos n) =
    (λ e h. unfold make_mask in ground arith, λ h. unfold make_mask in ground arith)

-- The first `n` bits of a 32-bit address.
abbrev pub top_bits : ℕ → ℕ → ℕ
top_bits n address = drop_bits (32 - n) address

bound_table : holds_below (λ n. shift_left (32 - n) (bound n) == 2 ^ 32) 33 ≡ true
unfolding holds_below shift_left bound
bound_table = refl

bound_lem : (n : ℕ) → n ≤ 32 → shift_left (32 - n) (bound n) ≡ 2 ^ 32
bound_lem n h =
    (==_iff _ (2 ^ 32)).0
      (holds_below-at (λ n. shift_left (32 - n) (bound n) == 2 ^ 32) 33 n (omega arith) bound_table)

masked :
    (n a : ℕ)
    → n ≤ 32
    → a < 2 ^ 32
    → bit_and a (shift_left (32 - n) (ones n)) ≡ shift_left (32 - n) (top_bits n a)
masked n a h small =
    bit_and-mask (32 - n) n a (drop_bits-lt (32 - n) n a (rw (bound_lem n h) small))

cidr_block_at :
    (prefix n : ℕ)
    → n ≤ 32
    → prefix < 2 ^ 32
    → cidr_block prefix (pos n) ≡ (
        check (shift_left (32 - n) (top_bits n prefix) == prefix) runtime_error >>= λ _.
        ok (record { prefix = prefix; length = pos n }))
cidr_block_at prefix n h small =
    unfold cidr_block in rw (make_mask_lem n h, masked n prefix h small)

-- What the constructor of `CidrBlock` accepts: a prefix with no bit set behind its length.
pub cidr_block_iff :
    (prefix n : ℕ)
    → n ≤ 32
    → prefix < 2 ^ 32
    → (cidr_block prefix (pos n) ≡ ok (record { prefix = prefix; length = pos n }))
      ↔ (prefix ≡ shift_left (32 - n) (top_bits n prefix))
cidr_block_iff prefix n h small =
    rw (cidr_block_at prefix n h small) (λ e. ground arith, λ e. ground arith)

-- A block keeps the arguments that it was constructed from.
pub cidr_block_shape :
    (prefix n : ℕ) (block : CidrBlock)
    → n ≤ 32
    → prefix < 2 ^ 32
    → cidr_block prefix (pos n) ≡ ok block
    → block ≡ record { prefix = prefix; length = pos n }
cidr_block_shape prefix n block h small e = ground (arith, cidr_block_at prefix n h small)

-- A block of at most 32 bits that was constructed from a 32-bit prefix matches exactly the 32-bit
-- addresses that have its first bits.
pub matches_iff :
    (prefix n address : ℕ) (block : CidrBlock)
    → n ≤ 32
    → prefix < 2 ^ 32
    → address < 2 ^ 32
    → cidr_block prefix (pos n) ≡ ok block
    → (b : Bool) × (matches block address ≡ ok b)
      × ((b ≡ true) ↔ (top_bits n address ≡ top_bits n prefix))
matches_iff prefix n address block h small small' e =
    let k = 32 - n in
    let shape = cidr_block_shape prefix n block h small e in
    let valid : prefix ≡ shift_left k (top_bits n prefix) =
      (cidr_block_iff prefix n h small).0 (rw shape at e) in
    let word = shift_left k (top_bits n address) in
    (
      prefix == word,
      rw shape (unfold matches in rw (make_mask_lem n h, masked n address h small')),
      (
        λ hit. shift_left-injective k _ _ (sym ((==_iff prefix word).0 hit) ∙ valid),
        λ same. (==_iff prefix word).1 (valid ∙ ap (shift_left k) (sym same)),
      ),
    )
