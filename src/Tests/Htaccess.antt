-- ===== src/Tests/Htaccess.antt =====
-- The rules of `.htaccess` files on examples.
use cse124_httpserver.Base.{
  ℕ, ◌^◌, ◌≡◌, ◌<◌, ◌↔◌, refl, arith, Bool, true, false, pos, Option, none, some, List, [], ◌∷◌,
  ◌++◌, All, if◌then◌else◌, Text, codes, text_eq, Result, ok, throw, undefined, invalid_argument,
  shift_left, drop_bits,
}
use cse124_httpserver.Util.Decimal.{to_string, stoi}
use cse124_httpserver.Htaccess.{
  CidrBlock, cidr_block, matches, HtAccessRule, allows, parse_cidr, parse_cidr_or_domain,
  parse_htaccess_rules,
}
use cse124_httpserver.Htaccess.Masks.{top_bits, matches_iff}
use cse124_httpserver.Htaccess.Rules.{IsBlock, FirstMatch}
use cse124_httpserver.Htaccess.Files.{parse_htaccess_rules-FirstMatch}
use cse124_httpserver.Htaccess.Cidr.{parse_cidr-undefined, parse_cidr_or_domain-invalid}

-- 10.0.0.0, and an address in its block of 8 bits
abbrev pub ten_net : ℕ
ten_net = 167772160

abbrev ten_host : ℕ
ten_host = 167772161

-- An `inet_pton` that knows one address, and a DNS client that finds none for any name.
unfoldable pub knows_ten : Text → Option ℕ
knows_ten s = if text_eq s (codes "10.0.0.0") then some ten_net else none

abbrev pub finds_none : Text → Result (List ℕ)
finds_none s = ok []

knows_ten_small : (s : Text) (ip : ℕ) → knows_ten s ≡ some ip → ip < 2 ^ 32
unfolding knows_ten
knows_ten_small s ip e = ground arith

finds_none_small : (s : Text) (ips : List ℕ) → finds_none s ≡ ok ips → All (λ ip. ip < 2 ^ 32) ips
finds_none_small s [] e = tt
finds_none_small s (ip ∷ ips) e = cc

knows_ten_net : knows_ten (codes "10.0.0.0") ≡ some ten_net
unfolding knows_ten text_eq
knows_ten_net = refl

abbrev ten_block : CidrBlock
ten_block = record { prefix = ten_net; length = pos 8 }

abbrev deny_ten : List HtAccessRule
deny_ten = record { pattern_block = ten_block; allow = false } ∷ []

ten_block_made : cidr_block ten_net (pos 8) ≡ ok ten_block
unfolding cidr_block
ten_block_made = refl

ten_block-IsBlock : IsBlock ten_block
unfolding shift_left drop_bits
ten_block-IsBlock = (omega arith, omega arith, refl)

rules_read :
    parse_htaccess_rules knows_ten finds_none (codes "deny from 10.0.0.0/8\n") ≡ ok deny_ten
unfolding parse_htaccess_rules knows_ten text_eq
rules_read = refl

not_a_number : stoi (codes "x") ≡ throw invalid_argument
unfolding stoi
not_a_number = refl

matches_iff_example :
    (b : Bool) × (matches ten_block ten_host ≡ ok b)
    × ((b ≡ true) ↔ (top_bits 8 ten_host ≡ top_bits 8 ten_net))
matches_iff_example =
    matches_iff ten_net 8 ten_host ten_block (omega arith) (omega arith) (omega arith)
      ten_block_made

parse_htaccess_rules-FirstMatch_example :
    (b : Bool) × (allows deny_ten ten_host ≡ ok b) × FirstMatch deny_ten ten_host b
parse_htaccess_rules-FirstMatch_example =
    parse_htaccess_rules-FirstMatch knows_ten knows_ten_small finds_none finds_none_small
      (codes "deny from 10.0.0.0/8\n") deny_ten ten_host rules_read (omega arith)

parse_cidr-undefined_example :
    parse_cidr knows_ten (codes "10.0.0.0" ++ (codes "/" ++ to_string 33)) ≡ undefined
parse_cidr-undefined_example =
    parse_cidr-undefined knows_ten (codes "10.0.0.0") ten_net 33 (ground arith) knows_ten_net
      (omega arith) (omega arith)

parse_cidr_or_domain-invalid_example :
    parse_cidr_or_domain knows_ten finds_none (codes "10.0.0.0" ++ (codes "/" ++ codes "x"))
    ≡ throw invalid_argument
parse_cidr_or_domain-invalid_example =
    parse_cidr_or_domain-invalid knows_ten finds_none (codes "10.0.0.0") ten_net b'x' []
      (ground arith) (ground arith) knows_ten_net not_a_number
