-- ===== src/Htaccess/Files.antt =====
-- Parsing: a CIDR string, and the rules of a whole `.htaccess` file.
use cse124_httpserver.Base.{
  ℕ, ◌^◌, ◌<◌, ◌≡◌, ◌⊎◌, inl, inr, Bool, ℤ, pos, negsuc, Option, some, List, [], ◌∷◌, ◌++◌, All,
  All-append, arith, Result, ok, throw, undefined, no_fuel, >>=-eq-ok, Bool-cases, leb, Text, codes,
  text_eq, leb→le,
}
use cse124_httpserver.Util.{split}
use cse124_httpserver.Util.Decimal.{stoi}
use cse124_httpserver.Htaccess.{
  CidrBlock, cidr_block, HtAccessRule, allows, parse_allow_deny, catch_runtime_error,
  address_blocks, rules_of, parse_ip, cidr_of_parts, parse_cidr, parse_cidr_or_domain,
  rules_of_line, parse_rules_lines, parse_htaccess_rules,
}
use cse124_httpserver.Htaccess.Masks.{cidr_block_iff, cidr_block_shape}
use cse124_httpserver.Htaccess.Rules.{IsBlock, FirstMatch, allows-FirstMatch}

cidr_block-IsBlock :
    (prefix : ℕ) (length : ℤ) (block : CidrBlock)
    → prefix < 2 ^ 32
    → cidr_block prefix length ≡ ok block
    → IsBlock block
cidr_block-IsBlock prefix (negsuc n) block small e = absurd (unfold cidr_block in cc)
cidr_block-IsBlock prefix (pos n) block small e = elim (Bool-cases (leb n 32)) [
  | inl within ↦
      let h = leb→le n 32 within in
      let shape = cidr_block_shape prefix n block h small e in
      rw shape (h, small, (cidr_block_iff prefix n h small).0 (rw shape at e))
  | inr beyond ↦ absurd (unfold cidr_block in ground arith)
]

AllBlocks : List HtAccessRule → Type 0
AllBlocks rules = All (λ r. IsBlock r.pattern_block) rules

rules_of-AllBlocks :
    (allow : Bool) (blocks : List CidrBlock)
    → All IsBlock blocks
    → AllBlocks (rules_of allow blocks)
unfolding AllBlocks
rules_of-AllBlocks allow [] h = tt
rules_of-AllBlocks allow (b ∷ blocks) h = (h.0, rules_of-AllBlocks allow blocks h.1)

abbrev IsAddress : ℕ → Type 0
IsAddress ip = ip < 2 ^ 32

address_blocks-IsBlock :
    (ips : List ℕ) (blocks : List CidrBlock)
    → All IsAddress ips
    → address_blocks ips ≡ ok blocks
    → All IsBlock blocks
unfolding address_blocks
address_blocks-IsBlock [] blocks h e = let same : blocks ≡ [] = cc in rw same tt
address_blocks-IsBlock (ip ∷ ips) blocks h e =
    let (block, made, e') = >>=-eq-ok (cidr_block ip (pos 32)) _ e in
    let (others, made', e'') = >>=-eq-ok (address_blocks ips) _ e' in
    let same : blocks ≡ block ∷ others = cc in
    rw same
      (cidr_block-IsBlock ip (pos 32) block h.0 made, address_blocks-IsBlock ips others h.1 made')

catch_runtime_error-eq-ok {ℓ} :
    {A : Type ℓ} (r handler : Result A) {a : A}
    → catch_runtime_error r handler ≡ ok a
    → (r ≡ ok a) ⊎ (handler ≡ ok a)
catch_runtime_error-eq-ok (ok a) handler e = inl e
catch_runtime_error-eq-ok (throw x) handler e = ground arith
catch_runtime_error-eq-ok undefined handler e = cc
catch_runtime_error-eq-ok no_fuel handler e = cc

-- `inet_pton` and the DNS client give 32-bit addresses.
module _ (inet_pton : Text → Option ℕ)
    (inet_pton_small : (s : Text) (ip : ℕ) → inet_pton s ≡ some ip → ip < 2 ^ 32) where
  cidr_of_parts-IsBlock :
      (parts : List Text) (block : CidrBlock)
      → cidr_of_parts inet_pton parts ≡ ok block
      → IsBlock block
  unfolding cidr_of_parts
  cidr_of_parts-IsBlock (address ∷ bits ∷ []) block e =
      let (prefix, read, e') = >>=-eq-ok (parse_ip inet_pton address) _ e in
      let (length, read', made) = >>=-eq-ok (stoi bits) _ e' in
      cidr_block-IsBlock prefix length block
        (inet_pton_small address prefix (unfold parse_ip in ground arith)) made
  cidr_of_parts-IsBlock _ block e = cc

  parse_cidr-IsBlock :
      (s : Text) (block : CidrBlock) → parse_cidr inet_pton s ≡ ok block → IsBlock block
  unfolding parse_cidr
  parse_cidr-IsBlock s block e =
      let (parts, _, e') = >>=-eq-ok (split s (codes "/")) _ e in
      cidr_of_parts-IsBlock parts block e'

  module _ (lookup : Text → Result (List ℕ))
      (lookup_small : (s : Text) (ips : List ℕ) → lookup s ≡ ok ips → All IsAddress ips) where
    parse_cidr_or_domain-IsBlock :
        (s : Text) (blocks : List CidrBlock)
        → parse_cidr_or_domain inet_pton lookup s ≡ ok blocks
        → All IsBlock blocks
    unfolding parse_cidr_or_domain
    parse_cidr_or_domain-IsBlock s blocks e = elim (catch_runtime_error-eq-ok _ _ e) [
      | inl e' ↦
          let (block, made, e'') =
            >>=-eq-ok (parse_cidr inet_pton s) (λ block. ok (block ∷ [])) e' in
          let same : blocks ≡ block ∷ [] = cc in rw same (parse_cidr-IsBlock s block made, tt)
      | inr e' ↦
          let (ips, found, e'') = >>=-eq-ok (lookup s) _ e' in
          address_blocks-IsBlock ips blocks (lookup_small s ips found) e''
    ]

    rules_of_line-AllBlocks :
        (components : List Text) (rules : List HtAccessRule)
        → rules_of_line inet_pton lookup components ≡ ok rules
        → AllBlocks rules
    unfolding rules_of_line
    rules_of_line-AllBlocks (allow_str ∷ host_str ∷ []) rules e =
        let (allow, _, e') = >>=-eq-ok (parse_allow_deny allow_str) _ e in
        let (blocks, made, e'') = >>=-eq-ok (parse_cidr_or_domain inet_pton lookup host_str) _ e' in
        let same : rules ≡ rules_of allow blocks = cc in
        rw same
          (rules_of-AllBlocks allow blocks (parse_cidr_or_domain-IsBlock host_str blocks made))
    rules_of_line-AllBlocks _ rules e = cc

    parse_rules_lines-AllBlocks :
        (lines : List Text) (rules : List HtAccessRule)
        → parse_rules_lines inet_pton lookup lines ≡ ok rules
        → AllBlocks rules
    unfolding parse_rules_lines AllBlocks
    parse_rules_lines-AllBlocks [] rules e = let same : rules ≡ [] = cc in rw same tt
    parse_rules_lines-AllBlocks (line ∷ lines) rules e = elim (Bool-cases (text_eq line [])) [
      | inl blank ↦ parse_rules_lines-AllBlocks lines rules (rw blank at e)
      | inr full ↦
          let (components, _, e') = >>=-eq-ok (split line (codes " from ")) _ (rw full at e) in
          let (here, made, e'') = >>=-eq-ok (rules_of_line inet_pton lookup components) _ e' in
          let (rest, made', e3) = >>=-eq-ok (parse_rules_lines inet_pton lookup lines) _ e'' in
          let same : rules ≡ here ++ rest = cc in
          rw same (
            All-append (λ r. IsBlock r.pattern_block) here rest
              (rules_of_line-AllBlocks components here made)
              (parse_rules_lines-AllBlocks lines rest made'))
    ]

    -- If `inet_pton` and the DNS client give 32-bit addresses: for every file that parses and every
    -- 32-bit address `allows` returns, with what the first rule that covers the address says, or
    -- true.
    pub parse_htaccess_rules-FirstMatch :
        (file : Text) (rules : List HtAccessRule) (address : ℕ)
        → parse_htaccess_rules inet_pton lookup file ≡ ok rules
        → address < 2 ^ 32
        → (b : Bool) × (allows rules address ≡ ok b) × FirstMatch rules address b
    unfolding parse_htaccess_rules
    parse_htaccess_rules-FirstMatch file rules address e small =
        let (lines, _, e') = >>=-eq-ok (split file (codes "\n")) _ e in
        allows-FirstMatch rules address
          (unfold AllBlocks in parse_rules_lines-AllBlocks lines rules e') small
