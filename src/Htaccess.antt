-- ===== src/Htaccess.antt =====
-- htaccess.h and htaccess.cpp. An address is the 32-bit number a.b.c.d in host order: the masks are
-- applied bit by bit, so `htonl`, which permutes the bytes of both sides, is left out.
-- `inet_pton` gives `none` for a text that is no address, and `lookup` is the DNS client's.
pub mod Masks
pub mod Cidr
pub mod Files
pub mod Rules
use Prim.Native.Nat.{bit_and}
use cse124_httpserver.Base.{
  ℕ, ◌-◌, ◌*◌, ◌%◌, ◌^◌, Bool, true, false, ℤ, pos, negsuc, Option, none, some, List, [], ◌∷◌, ◌++◌,
  leb, ◌==◌, if◌then◌else◌, Text, codes, text_eq, Exception, is_runtime_error, runtime_error,
  Result, ok, throw, undefined, no_fuel, ◌>>=◌, ◌>>◌, check,
}
use cse124_httpserver.Util.{split}
use cse124_httpserver.Util.Decimal.{stoi}

abbrev pub bits_in_address : ℕ
bits_in_address = 32

-- A shift of a 32-bit word by a negative count, or by 32 and more, is undefined.
unfoldable pub make_mask : ℤ → Result ℕ
make_mask (negsuc _) = undefined
make_mask (pos length) =
    if length == 0
    then ok 0
    else if leb length bits_in_address
    then ok (0xFFFFFFFF * 2 ^ (bits_in_address - length) % 2 ^ 32)
    else undefined

pub record CidrBlock : Type 0 where
  pub prefix : ℕ
  pub length : ℤ

-- The constructor of `CidrBlock`.
unfoldable pub cidr_block : ℕ → ℤ → Result CidrBlock
unfolding make_mask
cidr_block prefix length = do
  mask ← make_mask length
  check (bit_and prefix mask == prefix) runtime_error
  ok (record { prefix = prefix; length = length })

unfoldable pub matches : CidrBlock → ℕ → Result Bool
unfolding make_mask
matches block address = do mask ← make_mask block.length; ok (block.prefix == bit_and address mask)

pub record HtAccessRule : Type 0 where
  pub pattern_block : CidrBlock
  pub allow : Bool

unfoldable pub allows : List HtAccessRule → ℕ → Result Bool
unfolding matches
allows [] address = ok true
allows (rule ∷ rules) address =
    let rest = allows rules address in
    (do hit ← matches rule.pattern_block address; if hit then ok rule.allow else rest)

unfoldable pub parse_allow_deny : Text → Result Bool
parse_allow_deny allow_str =
    if text_eq allow_str (codes "allow")
    then ok true
    else if text_eq allow_str (codes "deny")
    then ok false
    else throw runtime_error

-- `try { r } catch (runtime_error&) { handler }`
abbrev pub catch_runtime_error {ℓ} : {A : Type ℓ} → Result A → Result A → Result A
catch_runtime_error (throw e) handler = if is_runtime_error e then handler else throw e
catch_runtime_error r handler = r

-- A block of one address for each address that a domain has.
unfoldable pub address_blocks : List ℕ → Result (List CidrBlock)
unfolding cidr_block
address_blocks [] = ok []
address_blocks (ip ∷ ips) = do
  block ← cidr_block ip (pos bits_in_address)
  blocks ← address_blocks ips
  ok (block ∷ blocks)

abbrev pub rules_of : Bool → List CidrBlock → List HtAccessRule
rules_of allow [] = []
rules_of allow (block ∷ blocks) =
    record { pattern_block = block; allow = allow } ∷ rules_of allow blocks

module _ (inet_pton : Text → Option ℕ) where
  unfoldable pub parse_ip : Text → Result ℕ
  parse_ip ip_str = elim (inet_pton ip_str) [ none ↦ throw runtime_error | some ip ↦ ok ip ]

  -- The two parts of a CIDR string.
  unfoldable pub cidr_of_parts : List Text → Result CidrBlock
  unfolding parse_ip cidr_block stoi
  cidr_of_parts (address ∷ bits ∷ []) = do
    prefix ← parse_ip address
    length ← stoi bits
    cidr_block prefix length
  cidr_of_parts _ = throw runtime_error

  unfoldable pub parse_cidr : Text → Result CidrBlock
  unfolding cidr_of_parts split
  parse_cidr cidr_str = do parts ← split cidr_str (codes "/"); cidr_of_parts parts

  module _ (lookup : Text → Result (List ℕ)) where
    unfoldable pub parse_cidr_or_domain : Text → Result (List CidrBlock)
    unfolding parse_cidr address_blocks
    parse_cidr_or_domain host_str =
        catch_runtime_error (do block ← parse_cidr host_str; ok (block ∷ []))
          (do ips ← lookup host_str; address_blocks ips)

    -- The rules of one line, from its components.
    unfoldable pub rules_of_line : List Text → Result (List HtAccessRule)
    unfolding parse_allow_deny parse_cidr_or_domain
    rules_of_line (allow_str ∷ host_str ∷ []) = do
      allow ← parse_allow_deny allow_str
      blocks ← parse_cidr_or_domain host_str
      ok (rules_of allow blocks)
    rules_of_line _ = throw runtime_error

    unfoldable pub parse_rules_lines : List Text → Result (List HtAccessRule)
    unfolding rules_of_line split
    parse_rules_lines [] = ok []
    parse_rules_lines (line ∷ lines) =
        let others = parse_rules_lines lines in
        if text_eq line [] then others else (do
          components ← split line (codes " from ")
          rules ← rules_of_line components
          rest ← others
          ok (rules ++ rest))

    unfoldable pub parse_htaccess_rules : Text → Result (List HtAccessRule)
    unfolding parse_rules_lines split
    parse_htaccess_rules rules_str = do
      lines ← split rules_str (codes "\n")
      parse_rules_lines lines
