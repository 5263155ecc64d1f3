-- ===== src/Http/RoundTrip.antt =====
-- The frame of a well-formed request parses to that request.
use cse124_httpserver.Base.{
  ◌≤◌, ◌≡◌, refl, sym, ap, ◌∙◌, true, pos, List, [], ◌∷◌, ◌++◌, map, append_assoc, arith, length,
  take, All, Text, codes, text_eq_iff, ok, ◌>>=◌, Lacks,
}
use cse124_httpserver.Util.{split_n, join, substr}
use cse124_httpserver.Util.Split.{pieces, split_n-pieces}
use cse124_httpserver.Util.Pieces.{split-join, pieces-append}
use cse124_httpserver.Http.{
  crlf, HttpFrame, HttpHeader, HttpRequest, pack_headers, pack_request, parse_headers, is_rooted,
  parse_parts, parse_lines, parse_request_frame,
}
use cse124_httpserver.Http.Parse.{
  terminated, join-terminated, parse_lines-cons, parse_request_frame_steps, request_line,
  pack_request-line, parse_headers-cons,
}

abbrev pub header_line : HttpHeader → Text
header_line h = h.key ++ (codes ":" ++ h.value)

-- No part of a request holds what would end it: a CR, a space in the method or the uri, or a colon
-- in the key of a header. The uri and the version pass the parser's checks.
pub record IsWellFormed (r : HttpRequest) : Type 0 where
  pub method_lacks : Lacks b' ' r.method
  pub uri_lacks : Lacks b' ' r.uri
  pub line_lacks : Lacks 13 (request_line r)
  pub keys_lack : All (λ h. Lacks b':' h.key) r.headers
  pub headers_lack : All (λ h. Lacks 13 (header_line h)) r.headers
  pub uri_rooted : is_rooted r.uri ≡ true
  pub version_prefix : take 5 r.version ≡ codes "HTTP/"
  pub version_long : 8 ≤ length r.version

-- The text of a request up to the blank line, as a connection hands it over.
abbrev pub frame_of : HttpRequest → HttpFrame
frame_of r = record { contents = join crlf (request_line r ∷ map header_line r.headers) }

lines_lack :
    (hs : List HttpHeader)
    → All (λ h. Lacks 13 (header_line h)) hs
    → All (Lacks 13) (map header_line hs)
lines_lack [] h = tt
lines_lack (x ∷ hs) h = (h.0, lines_lack hs h.1)

split_header :
    (h : HttpHeader)
    → Lacks b':' h.key
    → split_n (header_line h) (codes ":") (pos 1) ≡ ok (h.key ∷ h.value ∷ [])
split_header h lacks =
    split_n-pieces (header_line h) (codes ":") 1 (omega arith)
    ∙ ap ok (pieces-append 0 b':' [] h.key h.value lacks ∙ unfold pieces in refl)

split_request_line :
    (r : HttpRequest)
    → Lacks b' ' r.method
    → Lacks b' ' r.uri
    → split_n (request_line r) (codes " ") (pos 2) ≡ ok (r.method ∷ r.uri ∷ r.version ∷ [])
split_request_line r m u =
    split_n-pieces (request_line r) (codes " ") 2 (omega arith)
    ∙ ap ok (
        pieces-append 1 b' ' [] r.method _ m
        ∙ ap (◌∷◌ r.method) (pieces-append 0 b' ' [] r.uri r.version u ∙ unfold pieces in refl))

parse_headers_lines :
    (hs : List HttpHeader)
    → All (λ h. Lacks b':' h.key) hs
    → parse_headers (map header_line hs) ≡ ok hs
parse_headers_lines [] l = unfold parse_headers in refl
parse_headers_lines (h ∷ hs) l =
    parse_headers-cons (header_line h) (map header_line hs)
    ∙ rw (split_header h l.0, parse_headers_lines hs l.1)

parse_parts_well :
    (r : HttpRequest) (lines : List Text)
    → is_rooted r.uri ≡ true
    → take 5 r.version ≡ codes "HTTP/"
    → 8 ≤ length r.version
    → parse_headers lines ≡ ok r.headers
    → parse_parts (r.method ∷ r.uri ∷ r.version ∷ []) lines
      ≡ ok (record r { body = []; remote_ip = 0 })
parse_parts_well r lines u p l h =
    unfold parse_parts substr in ground (arith, text_eq_iff (take 5 r.version) (codes "HTTP/"))

-- A well-formed request is read back from its frame, but for the body and the remote address, which
-- the frame does not hold.
pub parse-frame_of :
    (r : HttpRequest)
    → IsWellFormed r
    → parse_request_frame (frame_of r) ≡ ok (record r { body = []; remote_ip = 0 })
parse-frame_of r v =
    let lines = map header_line r.headers in
    let cut =
      split-join 13 (10 ∷ []) (request_line r) lines
        (v.line_lacks, lines_lack r.headers v.headers_lack) in
    parse_request_frame_steps (frame_of r)
    ∙ ap (λ m. m >>= λ ls. parse_lines ls) cut
    ∙ parse_lines-cons (request_line r) lines
    ∙ ap (λ m. m >>= λ parts. parse_parts parts lines)
        (split_request_line r v.method_lacks v.uri_lacks)
    ∙ parse_parts_well r lines v.uri_rooted v.version_prefix v.version_long
        (parse_headers_lines r.headers v.keys_lack)

pack_headers-terminated : (hs : List HttpHeader) → pack_headers hs ≡ terminated (map header_line hs)
unfolding pack_headers
pack_headers-terminated [] = refl
pack_headers-terminated (h ∷ hs) = rw (append_assoc, pack_headers-terminated hs)

-- What `pack` writes for a request is its frame, a blank line and its body.
pack-frame_of :
    (r : HttpRequest)
    → (pack_request r).contents ≡ (frame_of r).contents ++ (crlf ++ (crlf ++ r.body))
pack-frame_of r =
    let lines = map header_line r.headers in
    let end = crlf ++ r.body in
    pack_request-line r
    ∙ rw (pack_headers-terminated r.headers) (
        sym (
          sym (append_assoc (frame_of r).contents crlf end)
          ∙ ap (λ t. t ++ end) (join-terminated (request_line r) lines)
          ∙ append_assoc (request_line r) (crlf ++ terminated lines) end))
