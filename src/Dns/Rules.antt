-- ===== src/Dns/Rules.antt =====
-- A rule of a `.htaccess` file that names a domain, with each of the clients.
use cse124_httpserver.Base.{
  Option, ℕ, ◌^◌, ◌<◌, ◌≡◌, ◌↔◌, inl, inr, refl, sym, ap, ◌∙◌, Bool, true, false, Bool-cases, pos,
  List, [], ◌∷◌, ◌++◌, append_assoc, append-nil, map, All, ◌==◌, ==_iff, arith, if◌then◌else◌, Text,
  drop_bits, Result, ok, throw, runtime_error, ◌>>=◌, shift_left,
}
use cse124_httpserver.Htaccess.{
  CidrBlock, cidr_block, matches, HtAccessRule, allows, parse_allow_deny, address_blocks, rules_of,
  parse_cidr, parse_cidr_or_domain, rules_of_line,
}
use cse124_httpserver.Htaccess.Masks.{cidr_block_iff, matches_iff}
use cse124_httpserver.Dns.{push_addresses, lookup_network}

abbrev block_of : ℕ → CidrBlock
block_of ip = record { prefix = ip; length = pos 32 }

abbrev IsAddress : ℕ → Type 0
IsAddress ip = ip < 2 ^ 32

-- Whether the address is in the list.
unfoldable pub among : List ℕ → ℕ → Bool
among [] address = false
among (ip ∷ ips) address = let rest = among ips address in if ip == address then true else rest

cidr_block-block_of : (ip : ℕ) → IsAddress ip → cidr_block ip (pos 32) ≡ ok (block_of ip)
cidr_block-block_of ip small =
    (cidr_block_iff ip 32 (omega arith) small).1 (unfold shift_left drop_bits in refl)

same_test : (b : Bool) (ip address : ℕ) → ((b ≡ true) ↔ (address ≡ ip)) → b ≡ (ip == address)
same_test true ip address same = sym ((==_iff ip address).1 (sym (same.0 refl)))
same_test false ip address same = elim (Bool-cases (ip == address)) [
  | inl hit ↦ same.1 (sym ((==_iff ip address).0 hit)) ∙ sym hit
  | inr miss ↦ sym miss
]

matches-block_of :
    (ip address : ℕ)
    → IsAddress ip
    → IsAddress address
    → matches (block_of ip) address ≡ ok (ip == address)
unfolding drop_bits
matches-block_of ip address small small' =
    let (b, run, same) =
      matches_iff ip 32 address (block_of ip) (omega arith) small small'
        (cidr_block-block_of ip small) in
    run ∙ ap ok (same_test b ip address same)

address_blocks_lem : (ips : List ℕ) → All IsAddress ips → address_blocks ips ≡ ok (map block_of ips)
unfolding address_blocks
address_blocks_lem [] h = refl
address_blocks_lem (ip ∷ ips) (here, later) =
    rw (cidr_block-block_of ip here, address_blocks_lem ips later) refl

allows-cons :
    (rule : HtAccessRule) (rules : List HtAccessRule) (address : ℕ) (b c : Bool)
    → matches rule.pattern_block address ≡ ok b
    → allows rules address ≡ ok c
    → allows (rule ∷ rules) address ≡ ok (if b then rule.allow else c)
unfolding allows
allows-cons rule rules address true c e rest = rw e refl
allows-cons rule rules address false c e rest = rw e rest

allows-among :
    (ips : List ℕ) (allow : Bool) (address : ℕ)
    → All IsAddress ips
    → IsAddress address
    → allows (rules_of allow (map block_of ips)) address
      ≡ ok (if among ips address then allow else true)
unfolding allows among
allows-among [] allow address h small = refl
allows-among (ip ∷ ips) allow address (here, later) small =
    let first : HtAccessRule = record { pattern_block = block_of ip; allow = allow } in
    allows-cons first (rules_of allow (map block_of ips)) address (ip == address) _
      (matches-block_of ip address here small) (allows-among ips allow address later small)
    ∙ elim (Bool-cases (ip == address)) [ inl hit ↦ rw hit refl | inr miss ↦ rw miss refl ]

push_addresses_lem :
    (result addresses : List ℕ) → push_addresses result addresses ≡ addresses ++ result
unfolding push_addresses
push_addresses_lem [] addresses = sym (append-nil addresses)
push_addresses_lem (ip ∷ result) addresses =
    push_addresses_lem result (addresses ++ ip ∷ []) ∙ append_assoc addresses (ip ∷ []) result

lookup_network-ok :
    (getaddrinfo : Text → ℕ × List ℕ) (domain : Text)
    → ((getaddrinfo domain).0 == 0) ≡ true
    → lookup_network getaddrinfo domain ≡ ok (getaddrinfo domain).1
unfolding lookup_network
lookup_network-ok getaddrinfo domain good =
    rw (good, push_addresses_lem (getaddrinfo domain).1 []) refl

lookup_network-throw :
    (getaddrinfo : Text → ℕ × List ℕ) (domain : Text)
    → ((getaddrinfo domain).0 == 0) ≡ false
    → lookup_network getaddrinfo domain ≡ throw runtime_error
unfolding lookup_network
lookup_network-throw getaddrinfo domain bad = rw bad refl

module _ (inet_pton : Text → Option ℕ) where
  -- What a rule that names a domain, on a line of its own, decides for an address.
  abbrev pub decided : (Text → Result (List ℕ)) → Text → Text → ℕ → Result Bool
  decided lookup allow_str host_str address = do
    rules ← rules_of_line inet_pton lookup (allow_str ∷ host_str ∷ [])
    allows rules address

  decided-lookup :
      (lookup : Text → Result (List ℕ)) (allow_str host_str : Text) (allow : Bool) (ips : List ℕ)
      (address : ℕ)
      → parse_allow_deny allow_str ≡ ok allow
      → parse_cidr inet_pton host_str ≡ throw runtime_error
      → lookup host_str ≡ ok ips
      → All IsAddress ips
      → IsAddress address
      → decided lookup allow_str host_str address ≡ ok (if among ips address then allow else true)
  unfolding rules_of_line parse_cidr_or_domain
  decided-lookup lookup allow_str host_str allow ips address word no_block found h small =
      rw (word, no_block, found, address_blocks_lem ips h) (allows-among ips allow address h small)

  decided-throw :
      (lookup : Text → Result (List ℕ)) (allow_str host_str : Text) (allow : Bool) (address : ℕ)
      → parse_allow_deny allow_str ≡ ok allow
      → parse_cidr inet_pton host_str ≡ throw runtime_error
      → lookup host_str ≡ throw runtime_error
      → decided lookup allow_str host_str address ≡ throw runtime_error
  unfolding rules_of_line parse_cidr_or_domain
  decided-throw lookup allow_str host_str allow address word no_block lost =
      rw (word, no_block, lost) refl

  -- A rule that names a domain holds for the addresses that `getaddrinfo` gives for it, and for no
  -- others: an address that is not among them is allowed. If `getaddrinfo` fails, the rule throws.
  pub decided-lookup_network :
      (getaddrinfo : Text → ℕ × List ℕ) (allow_str host_str : Text) (allow : Bool) (address : ℕ)
      → parse_allow_deny allow_str ≡ ok allow
      → parse_cidr inet_pton host_str ≡ throw runtime_error
      → All IsAddress (getaddrinfo host_str).1
      → IsAddress address
      → decided (lookup_network getaddrinfo) allow_str host_str address ≡ (
          if (getaddrinfo host_str).0 == 0
          then ok (if among (getaddrinfo host_str).1 address then allow else true)
          else throw runtime_error)
  decided-lookup_network getaddrinfo allow_str host_str allow address word no_block h small =
      elim (Bool-cases ((getaddrinfo host_str).0 == 0)) [
        | inl good ↦ rw good (
            decided-lookup (lookup_network getaddrinfo) allow_str host_str allow
              (getaddrinfo host_str).1 address word no_block
              (lookup_network-ok getaddrinfo host_str good) h small)
        | inr bad ↦ rw bad (
            decided-throw (lookup_network getaddrinfo) allow_str host_str allow address word
              no_block (lookup_network-throw getaddrinfo host_str bad))
      ]
