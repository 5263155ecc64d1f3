-- ===== src/Http/Equality.antt =====
-- http.cpp: the operators `==` and `!=` of the messages.
use cse124_httpserver.Base.{
  ◌≡◌, ◌↔◌, Bool, true, false, ◌&&◌, List, [], ◌∷◌, arith, text_eq, text_eq_iff, ◌==◌,
}
use cse124_httpserver.Http.{HttpFrame, HttpHeader, HttpRequest, HttpStatus, HttpResponse}

abbrev pub frame_eq : HttpFrame → HttpFrame → Bool
frame_eq lhs rhs = text_eq lhs.contents rhs.contents

abbrev pub header_eq : HttpHeader → HttpHeader → Bool
header_eq lhs rhs = text_eq lhs.key rhs.key && text_eq lhs.value rhs.value

-- `==` of vectors
unfoldable pub headers_eq : List HttpHeader → List HttpHeader → Bool
headers_eq [] [] = true
headers_eq (h ∷ hs) (k ∷ ks) = header_eq h k && headers_eq hs ks
headers_eq _ _ = false

unfoldable pub request_eq : HttpRequest → HttpRequest → Bool
unfolding headers_eq
request_eq lhs rhs =
    text_eq lhs.method rhs.method
    && (text_eq lhs.uri rhs.uri
        && (text_eq lhs.version rhs.version
            && (headers_eq lhs.headers rhs.headers && text_eq lhs.body rhs.body)))

-- The names of two statuses are not compared.
abbrev pub status_eq : HttpStatus → HttpStatus → Bool
status_eq lhs rhs = lhs.status_code == rhs.status_code

unfoldable pub response_eq : HttpResponse → HttpResponse → Bool
unfolding headers_eq
response_eq lhs rhs =
    text_eq lhs.version rhs.version
    && (status_eq lhs.status rhs.status
        && (headers_eq lhs.headers rhs.headers && text_eq lhs.body rhs.body))

header_eq_iff : (h k : HttpHeader) → (header_eq h k ≡ true) ↔ (h ≡ k)
header_eq_iff h k = ground (arith, text_eq_iff h.key k.key, text_eq_iff h.value k.value)

headers_eq_iff : (hs ks : List HttpHeader) → (headers_eq hs ks ≡ true) ↔ (hs ≡ ks)
unfolding headers_eq
headers_eq_iff (h ∷ hs) (k ∷ ks) = ground (arith, header_eq_iff h k, headers_eq_iff hs ks)
headers_eq_iff _ _ = ground arith

-- Two requests are equal for `==` exactly if they differ in nothing but the remote address.
request_eq_iff :
    (lhs rhs : HttpRequest)
    → (request_eq lhs rhs ≡ true) ↔ (record lhs { remote_ip = rhs.remote_ip } ≡ rhs)
unfolding request_eq
request_eq_iff lhs rhs = ground (
  arith,
  text_eq_iff lhs.method rhs.method,
  text_eq_iff lhs.uri rhs.uri,
  text_eq_iff lhs.version rhs.version,
  headers_eq_iff lhs.headers rhs.headers,
  text_eq_iff lhs.body rhs.body,
)
