-- ===== src/Http/Parse.antt =====
-- What `parse_request_frame` accepts: the steps that a successful parse went through, and that
-- `pack` writes the parsed request as it was read.
use cse124_httpserver.Base.{
  ◌≤◌, ◌≡◌, refl, sym, ap, ◌∙◌, true, pos, List, [], ◌∷◌, ◌++◌, append_assoc, arith, length, take,
  Text, codes, text_eq_iff, ok, ◌>>=◌, >>=-eq-ok,
}
use cse124_httpserver.Util.{split, split_n, join, substr}
use cse124_httpserver.Util.Pieces.{join-singleton, join-cons, split_lem, split_n_lem}
use cse124_httpserver.Http.{
  crlf, HttpFrame, HttpHeader, HttpRequest, pack_headers, pack_request, header_of, parse_headers,
  is_rooted, parse_parts, parse_lines, parse_request_frame,
}

-- The parts that a request line gives, and what the parser checks of them.
pub record Accepts (parts lines : List Text) (r : HttpRequest) : Type 0 where
  pub three : parts ≡ r.method ∷ r.uri ∷ r.version ∷ []
  pub uri_rooted : is_rooted r.uri ≡ true
  pub version_prefix : take 5 r.version ≡ codes "HTTP/"
  pub version_long : 8 ≤ length r.version
  pub headers_read : parse_headers lines ≡ ok r.headers
  pub no_body : r.body ≡ []
  pub no_ip : r.remote_ip ≡ 0

parse_parts-Accepts :
    (parts lines : List Text) (r : HttpRequest)
    → parse_parts parts lines ≡ ok r
    → Accepts parts lines r
parse_parts-Accepts (m ∷ u ∷ v ∷ []) lines r h =
    unfold parse_parts substr parse_headers in
    ground (arith, text_eq_iff (take 5 v) (codes "HTTP/"))
parse_parts-Accepts _ lines r h = absurd (unfold parse_parts in cc)

-- The lines of a frame and the parts of its first line, as `split` and `split_n` find them.
pub record Reads (frame : HttpFrame) (r : HttpRequest) : Type 0 where
  pub initial_line : Text
  pub header_lines : List Text
  pub parts : List Text
  pub lines_cut : split frame.contents crlf ≡ ok (initial_line ∷ header_lines)
  pub parts_cut : split_n initial_line (codes " ") (pos 2) ≡ ok parts
  pub accepts : Accepts parts header_lines r

pub parse_lines-cons :
    (line : Text) (lines : List Text)
    → parse_lines (line ∷ lines)
      ≡ (split_n line (codes " ") (pos 2) >>= λ parts. parse_parts parts lines)
unfolding parse_lines
parse_lines-cons line lines = refl

pub parse_request_frame_steps :
    (frame : HttpFrame)
    → parse_request_frame frame ≡ (split frame.contents crlf >>= λ lines. parse_lines lines)
unfolding parse_request_frame
parse_request_frame_steps frame = refl

pub parse_request_frame-Reads :
    (frame : HttpFrame) (r : HttpRequest) → parse_request_frame frame ≡ ok r → Reads frame r
parse_request_frame-Reads frame r h =
    let (lines, cut, rest) = >>=-eq-ok _ parse_lines (sym (parse_request_frame_steps frame) ∙ h) in
    from_lines lines cut rest
  where
    from_lines :
        (lines : List Text)
        → split frame.contents crlf ≡ ok lines
        → parse_lines lines ≡ ok r
        → Reads frame r
    from_lines [] cut rest = absurd (unfold parse_lines in cc)
    from_lines (line ∷ lines) cut rest =
        let (parts, cut', accepted) =
          >>=-eq-ok _ (λ parts. parse_parts parts lines)
            (sym (parse_lines-cons line lines) ∙ rest) in
        record {
          initial_line = line;
          header_lines = lines;
          parts = parts;
          lines_cut = cut;
          parts_cut = cut';
          accepts = parse_parts-Accepts parts lines r accepted;
        }

-- Lines, each with the CRLF that ends it.
abbrev pub terminated : List Text → Text
terminated [] = []
terminated (l ∷ ls) = l ++ (crlf ++ terminated ls)

pub join-terminated : (l : Text) (ls : List Text) → join crlf (l ∷ ls) ++ crlf ≡ terminated (l ∷ ls)
join-terminated l [] = rw join-singleton
join-terminated l (k ∷ ls) =
    rw (join-cons, append_assoc) (ap (λ t. l ++ (crlf ++ t)) (join-terminated k ls))

join_two : (sep k v : Text) → join sep (k ∷ v ∷ []) ≡ k ++ (sep ++ v)
join_two sep k v = rw (join-cons, join-singleton)

header_of_line :
    (line : Text) (parts : List Text) (h : HttpHeader)
    → join (codes ":") parts ≡ line
    → header_of parts ≡ ok h
    → h.key ++ (codes ":" ++ h.value) ≡ line
header_of_line line (k ∷ v ∷ []) h e e' =
    let joined : k ++ (codes ":" ++ v) ≡ line = sym (join_two (codes ":") k v) ∙ e in cc
header_of_line line _ h e e' = cc

pub parse_headers-cons :
    (line : Text) (lines : List Text)
    → parse_headers (line ∷ lines) ≡ (
        split_n line (codes ":") (pos 1) >>= λ parts.
        header_of parts >>= λ header. parse_headers lines >>= λ rest. ok (header ∷ rest))
unfolding parse_headers
parse_headers-cons line lines = refl

-- The header of one line, and those of the lines after it.
parse_headers-cons_ok :
    (line : Text) (lines : List Text) (hs : List HttpHeader)
    → parse_headers (line ∷ lines) ≡ ok hs
    → (h : HttpHeader) × (rest : List HttpHeader) × (h.key ++ (codes ":" ++ h.value) ≡ line)
      × (parse_headers lines ≡ ok rest)
      × (hs ≡ h ∷ rest)
parse_headers-cons_ok line lines hs e =
    let (parts, cut, joined, _, _) = split_n_lem line (codes ":") 1 (omega arith) in
    let opened = rw cut at (sym (parse_headers-cons line lines) ∙ e) in
    let (h, made, later) = >>=-eq-ok (header_of parts) _ opened in
    let (rest, read, same) = >>=-eq-ok (parse_headers lines) _ later in
    (h, rest, header_of_line line parts h joined made, read, cc)

pack_headers-cons :
    (h : HttpHeader) (rest : List HttpHeader) (l : Text) (lines : List Text)
    → h.key ++ (codes ":" ++ h.value) ≡ l
    → pack_headers rest ≡ terminated lines
    → pack_headers (h ∷ rest) ≡ terminated (l ∷ lines)
pack_headers-cons h rest l lines shown later =
    unfold pack_headers in rw (← shown, ← later, append_assoc)

parse_headers-pack :
    (lines : List Text) (hs : List HttpHeader)
    → parse_headers lines ≡ ok hs
    → pack_headers hs ≡ terminated lines
parse_headers-pack [] hs e = unfold parse_headers pack_headers in ground arith
parse_headers-pack (l ∷ lines) hs e =
    let (h, rest, shown, read, same) = parse_headers-cons_ok l lines hs e in
    let later = parse_headers-pack lines rest read in
    rw same (pack_headers-cons h rest l lines shown later)

join_three : (sep a b c : Text) → join sep (a ∷ b ∷ c ∷ []) ≡ a ++ (sep ++ (b ++ (sep ++ c)))
join_three sep a b c = rw (join-cons, join_two)

-- The first line of a request, as `pack` writes it.
abbrev pub request_line : HttpRequest → Text
request_line r = r.method ++ (codes " " ++ (r.uri ++ (codes " " ++ r.version)))

pub pack_request-line :
    (r : HttpRequest)
    → (pack_request r).contents
      ≡ request_line r ++ (crlf ++ (pack_headers r.headers ++ (crlf ++ r.body)))
unfolding pack_request
pack_request-line r = simp append_assoc

initial_line-request_line :
    (line : Text) (parts : List Text) (r : HttpRequest)
    → split_n line (codes " ") (pos 2) ≡ ok parts
    → parts ≡ r.method ∷ r.uri ∷ r.version ∷ []
    → line ≡ request_line r
initial_line-request_line line parts r cut three =
    let (parts', cut', joined, _, _) = split_n_lem line (codes " ") 2 (omega arith) in
    let same : parts' ≡ r.method ∷ r.uri ∷ r.version ∷ [] = cc in
    sym joined ∙ ap (join (codes " ")) same ∙ join_three (codes " ") r.method r.uri r.version

frame_lines :
    (frame : HttpFrame) (line : Text) (lines : List Text)
    → split frame.contents crlf ≡ ok (line ∷ lines)
    → frame.contents ++ (crlf ++ crlf) ≡ terminated (line ∷ lines) ++ crlf
frame_lines frame line lines cut =
    let (lines', cut', joined, _) = split_lem frame.contents crlf (omega arith) in
    let same : lines' ≡ line ∷ lines = cc in
    sym (append_assoc frame.contents crlf crlf)
    ∙ ap (λ t. t ++ crlf)
        (ap (λ t. t ++ crlf) (sym joined ∙ ap (join crlf) same) ∙ join-terminated line lines)

glue :
    (line : Text) (lines : List Text) (r : HttpRequest)
    → line ≡ request_line r
    → pack_headers r.headers ≡ terminated lines
    → r.body ≡ []
    → terminated (line ∷ lines) ++ crlf
      ≡ request_line r ++ (crlf ++ (pack_headers r.headers ++ (crlf ++ r.body)))
glue line lines r p q e = rw (p, q, e) (append_assoc (request_line r) _ crlf)

-- What `pack` writes for a parsed request is the frame that was parsed, with the blank line that
-- ended it put back.
pub pack-parse :
    (frame : HttpFrame) (r : HttpRequest)
    → parse_request_frame frame ≡ ok r
    → (pack_request r).contents ≡ frame.contents ++ (crlf ++ crlf)
pack-parse frame r h =
    let w = parse_request_frame-Reads frame r h in
    let line = initial_line-request_line w.initial_line w.parts r w.parts_cut w.accepts.three in
    let rest = parse_headers-pack w.header_lines r.headers w.accepts.headers_read in
    let back = frame_lines frame w.initial_line w.header_lines w.lines_cut in
    pack_request-line r
    ∙ sym (back ∙ glue w.initial_line w.header_lines r line rest w.accepts.no_body)
