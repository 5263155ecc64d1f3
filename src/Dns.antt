-- ===== src/Dns.antt =====
-- dns_client.cpp. `getaddrinfo` is a parameter: what it returns, and the addresses of the list that it
-- leaves, in order. The text of the error is only printed.
pub mod Rules
use cse124_httpserver.Base.{
  ℕ, List, [], ◌∷◌, ◌++◌, ◌==◌, if◌then◌else◌, Text, Result, ok, throw, runtime_error,
}

-- The loop over the list, with the vector `addresses`.
unfoldable pub push_addresses : List ℕ → List ℕ → List ℕ
push_addresses [] addresses = addresses
push_addresses (ip ∷ result) addresses = push_addresses result (addresses ++ ip ∷ [])

-- `NetworkDnsClient::lookup`
unfoldable pub lookup_network : (Text → ℕ × List ℕ) → Text → Result (List ℕ)
unfolding push_addresses
lookup_network getaddrinfo domain =
    let (ret, result) = getaddrinfo domain in
    if ret == 0 then ok (push_addresses result []) else throw runtime_error

-- `NopDnsClient::lookup`
unfoldable pub lookup_nop : Text → Result (List ℕ)
lookup_nop domain = ok []
