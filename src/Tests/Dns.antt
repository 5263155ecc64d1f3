-- ===== src/Tests/Dns.antt =====
-- A rule that names a domain, on an example.
use cse124_httpserver.Base.{
  ℕ, ◌≡◌, refl, arith, true, false, List, [], ◌∷◌, if◌then◌else◌, Text, codes, text_eq, ok, throw,
  runtime_error, ◌==◌,
}
use cse124_httpserver.Htaccess.{parse_allow_deny, parse_cidr}
use cse124_httpserver.Dns.{lookup_network}
use cse124_httpserver.Dns.Rules.{among, decided, decided-lookup_network}
use cse124_httpserver.Tests.Htaccess.{ten_net, knows_ten}

-- A resolver with two addresses for each name.
abbrev pub finds_two : Text → ℕ × List ℕ
finds_two domain = (0, ten_net ∷ 7 ∷ [])

denies : parse_allow_deny (codes "deny") ≡ ok false
unfolding parse_allow_deny text_eq
denies = refl

no_block : parse_cidr knows_ten (codes "example.org") ≡ throw runtime_error
unfolding parse_cidr text_eq
no_block = refl

decided-lookup_network_example :
    decided knows_ten (lookup_network finds_two) (codes "deny") (codes "example.org") 7 ≡ (
      if (finds_two (codes "example.org")).0 == 0
      then ok (if among (finds_two (codes "example.org")).1 7 then false else true)
      else throw runtime_error)
decided-lookup_network_example =
    decided-lookup_network knows_ten finds_two (codes "deny") (codes "example.org") false 7 denies
      no_block (omega arith, (omega arith, tt)) (omega arith)
