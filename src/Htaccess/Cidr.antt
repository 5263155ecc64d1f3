-- ===== src/Htaccess/Cidr.antt =====
-- `parse_cidr` on the notation address/bits.
use cse124_httpserver.Base.{
  ℕ, ◌≤◌, ◌<◌, ◌≡◌, ◌∙◌, true, pos, Option, some, List, [], ◌∷◌, ◌++◌, All, arith, Result, ok,
  throw, undefined, ◌>>=◌, invalid_argument, Text, codes, Lacks,
}
use cse124_httpserver.Util.{split, join}
use cse124_httpserver.Util.Decimal.{to_string, stoi, stoi-to_string, to_string-IsDigit, is_digit}
use cse124_httpserver.Util.Pieces.{split-join, join-cons, join-singleton}
use cse124_httpserver.Htaccess.{
  cidr_block, parse_ip, cidr_of_parts, parse_cidr, parse_cidr_or_domain,
}
use cse124_httpserver.Htaccess.Masks.{make_mask-undefined_iff}

digits-Lacks : (s : Text) → All (λ c. is_digit c ≡ true) s → Lacks b'/' s
digits-Lacks [] h = tt
digits-Lacks (c ∷ s) h = (ground arith, digits-Lacks s h.1)

module _ (inet_pton : Text → Option ℕ) where
  slash_parts :
      (address bits : Text)
      → Lacks b'/' address
      → Lacks b'/' bits
      → split (address ++ (codes "/" ++ bits)) (codes "/") ≡ ok (address ∷ bits ∷ [])
  slash_parts address bits h k =
      let joined : join (codes "/") (address ∷ bits ∷ []) ≡ address ++ (codes "/" ++ bits) =
        rw (join-cons, join-singleton) in
      rw joined at (split-join b'/' [] address (bits ∷ []) (h, (k, tt)))

  cidr_of_parts_at :
      (address bits : Text) (prefix : ℕ)
      → inet_pton address ≡ some prefix
      → cidr_of_parts inet_pton (address ∷ bits ∷ [])
        ≡ (stoi bits >>= λ length. cidr_block prefix length)
  unfolding cidr_of_parts
  cidr_of_parts_at address bits prefix e = rw (e, parse_ip)

  parse_cidr-parts :
      (address bits : Text) (prefix : ℕ)
      → Lacks b'/' address
      → Lacks b'/' bits
      → inet_pton address ≡ some prefix
      → parse_cidr inet_pton (address ++ (codes "/" ++ bits))
        ≡ (stoi bits >>= λ length. cidr_block prefix length)
  parse_cidr-parts address bits prefix h k e =
      unfold parse_cidr in
      rw (slash_parts address bits h k) (cidr_of_parts_at address bits prefix e)

  -- `parse_cidr` reads an address without a slash that `inet_pton` knows, a slash and a number of
  -- bits that an `int` holds as the block of these.
  parse_cidr-to_string :
      (address : Text) (prefix n : ℕ)
      → Lacks b'/' address
      → inet_pton address ≡ some prefix
      → n ≤ 2147483647
      → parse_cidr inet_pton (address ++ (codes "/" ++ to_string n)) ≡ cidr_block prefix (pos n)
  parse_cidr-to_string address prefix n h e small =
      parse_cidr-parts address (to_string n) prefix h
        (digits-Lacks (to_string n) (to_string-IsDigit n)) e
      ∙ rw (stoi-to_string n small)

  -- The length in a CIDR string is not checked: behind an address without a slash that `inet_pton`
  -- knows, with more than 32 bits, in the range of an `int`, the parser shifts a word by a negative
  -- count, which is undefined.
  pub parse_cidr-undefined :
      (address : Text) (prefix n : ℕ)
      → Lacks b'/' address
      → inet_pton address ≡ some prefix
      → 32 < n
      → n ≤ 2147483647
      → parse_cidr inet_pton (address ++ (codes "/" ++ to_string n)) ≡ undefined
  parse_cidr-undefined address prefix n h e big small =
      let no_mask = (make_mask-undefined_iff (pos n)).1 (λ (w : n ≤ 32). omega arith) in
      parse_cidr-to_string address prefix n h e small ∙ unfold cidr_block in rw no_mask

  -- Behind an address without a slash that `inet_pton` knows, a text without a slash that is no
  -- number for `stoi` ends `parse_cidr_or_domain` with `invalid_argument`: whatever the DNS client
  -- would find, it is not asked.
  pub parse_cidr_or_domain-invalid :
      (lookup : Text → Result (List ℕ)) (address : Text) (prefix c : ℕ) (bits : Text)
      → Lacks b'/' address
      → Lacks b'/' (c ∷ bits)
      → inet_pton address ≡ some prefix
      → stoi (c ∷ bits) ≡ throw invalid_argument
      → parse_cidr_or_domain inet_pton lookup (address ++ (codes "/" ++ c ∷ bits))
        ≡ throw invalid_argument
  parse_cidr_or_domain-invalid lookup address prefix c bits h k e bad =
      unfold parse_cidr_or_domain in rw (parse_cidr-parts address (c ∷ bits) prefix h k e, bad)
