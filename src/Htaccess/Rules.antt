-- ===== src/Htaccess/Rules.antt =====
-- The decision of a rule list: the first rule whose block holds the address, or "allow".
use mathlib.Core.Bool.{false≢true}
use cse124_httpserver.Base.{
  ℕ, ◌-◌, ◌^◌, ◌≤◌, ◌<◌, ◌≡◌, ◌↔◌, ◌⊎◌, inl, inr, refl, sym, ap, ◌∙◌, Bool, true, false, ℤ, pos,
  negsuc, List, [], ◌∷◌, ◌++◌, All, arith, ok, Bool-cases, shift_left,
}
use cse124_httpserver.Htaccess.{CidrBlock, matches, HtAccessRule, allows}
use cse124_httpserver.Htaccess.Masks.{top_bits, cidr_block_iff, matches_iff}

-- A prefix of a length that has a mask, with no bit set behind it.
abbrev pub IsPrefix : ℕ → ℤ → Type 0
IsPrefix prefix (negsuc _) = ⊥
IsPrefix prefix (pos n) =
    (n ≤ 32) × (prefix < 2 ^ 32) × (prefix ≡ shift_left (32 - n) (top_bits n prefix))

abbrev pub IsBlock : CidrBlock → Type 0
IsBlock block = IsPrefix block.prefix block.length

-- The address begins with the bits of the prefix.
abbrev pub HasPrefix : ℕ → ℕ → ℤ → Type 0
HasPrefix address prefix (negsuc _) = ⊥
HasPrefix address prefix (pos n) = top_bits n address ≡ top_bits n prefix

abbrev pub Covers : ℕ → HtAccessRule → Type 0
Covers address rule = HasPrefix address rule.pattern_block.prefix rule.pattern_block.length

-- `b` is what the first rule that covers the address says, or true where no rule covers it.
abbrev pub FirstMatch : List HtAccessRule → ℕ → Bool → Type 0
FirstMatch rules address b =
    ((before : List HtAccessRule) × (rule : HtAccessRule) × (after : List HtAccessRule) × (rules
        ≡ before ++ rule ∷ after)
      × All (λ r. ¬ Covers address r) before
      × Covers address rule
      × (b ≡ rule.allow))
    ⊎ (All (λ r. ¬ Covers address r) rules × (b ≡ true))

matches-HasPrefix :
    (block : CidrBlock) (address : ℕ) (length : ℤ)
    → block.length ≡ length
    → IsPrefix block.prefix length
    → address < 2 ^ 32
    → (b : Bool) × (matches block address ≡ ok b)
      × ((b ≡ true) ↔ HasPrefix address block.prefix length)
matches-HasPrefix block address (negsuc _) e v small = absurd v
matches-HasPrefix block address (pos n) e (h, small', valid) small =
    matches_iff block.prefix n address block h small' small
      ((cidr_block_iff block.prefix n h small').1 valid ∙ ground arith)

allows-miss :
    (rule : HtAccessRule) (rules : List HtAccessRule) (address : ℕ) (b : Bool)
    → matches rule.pattern_block address ≡ ok false
    → allows rules address ≡ ok b
    → allows (rule ∷ rules) address ≡ ok b
unfolding allows
allows-miss rule rules address b miss rest = rw miss rest

FirstMatch-cons :
    (rule : HtAccessRule) (rules : List HtAccessRule) (address : ℕ) (b : Bool)
    → ¬ Covers address rule
    → FirstMatch rules address b
    → FirstMatch (rule ∷ rules) address b
FirstMatch-cons rule rules address b miss (inl (before, r, after, e, misses, hit, same)) =
    inl (rule ∷ before, r, after, ap (◌∷◌ rule) e, (miss, misses), hit, same)
FirstMatch-cons rule rules address b miss (inr (misses, same)) = inr ((miss, misses), same)

-- `allows` returns for every rule list whose blocks were constructed and every 32-bit address, and
-- gives the first match.
pub allows-FirstMatch :
    (rules : List HtAccessRule) (address : ℕ)
    → All (λ r. IsBlock r.pattern_block) rules
    → address < 2 ^ 32
    → (b : Bool) × (allows rules address ≡ ok b) × FirstMatch rules address b
allows-FirstMatch [] address v small = (true, unfold allows in refl, inr (tt, refl))
allows-FirstMatch (rule ∷ rules) address v small =
    let block = rule.pattern_block in
    let (hit, said, meaning) = matches-HasPrefix block address block.length refl v.0 small in
    let (b, rest, first) = allows-FirstMatch rules address v.1 small in
    elim (Bool-cases hit) [
      | inl yes' ↦ (
        rule.allow,
        unfold allows in rw (said, yes'),
        inl ([], rule, rules, refl, tt, meaning.0 yes', refl),
      )
      | inr no' ↦ (
        b,
        allows-miss rule rules address b (said ∙ ap ok no') rest,
        FirstMatch-cons rule rules address b (λ c. false≢true (sym no' ∙ meaning.1 c)) first,
      )
    ]
