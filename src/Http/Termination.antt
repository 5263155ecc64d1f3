-- ===== src/Http/Termination.antt =====
-- The parser of requests ends on every frame, and throws nothing but HttpRequestParseError.
use cse124_httpserver.Base.{
  ℕ, ◌≡◌, ◌<◌, ◌≢◌, subst, Bool, true, false, List, [], ◌∷◌, length, arith, check, Result, ok,
  throw, undefined, no_fuel, http_request_parse_error, Text, codes, ◌>>=◌, pos,
}
use cse124_httpserver.Util.{split_n, substr}
use cse124_httpserver.Util.Split.{split-pieces, split_n-pieces}
use cse124_httpserver.Util.Suffix.{substr_at}
use cse124_httpserver.Http.{
  HttpFrame, parse_request_frame, parse_lines, parse_parts, parse_headers, header_of, crlf,
}

-- A call that returns, or throws what `parse_request_frame` is declared to throw.
abbrev pub Declared {ℓ} : {A : Type ℓ} → Result A → Type 0
Declared (ok a) = Unit
Declared (throw http_request_parse_error) = Unit
Declared _ = ⊥

bind-Declared {ℓ κ} :
    {A : Type ℓ} {B : Type κ} (m : Result A) (f : A → Result B)
    → Declared m
    → ((a : A) → Declared (f a))
    → Declared (m >>= f)
bind-Declared (ok a) f h k = k a
bind-Declared (throw http_request_parse_error) f h k = tt
bind-Declared (throw e) f h k = absurd h
bind-Declared undefined f h k = absurd h
bind-Declared no_fuel f h k = absurd h

ok-Declared {ℓ} : {A : Type ℓ} (m : Result A) (a : A) → m ≡ ok a → Declared m
ok-Declared m a e = rw e tt

header_of-Declared : (parts : List Text) → Declared (header_of parts)
header_of-Declared (key ∷ value ∷ []) = tt
header_of-Declared _ = tt

split_n-Declared : (s sep : Text) (n : ℕ) → 0 < length sep → Declared (split_n s sep (pos n))
split_n-Declared s sep n long = ok-Declared _ _ (split_n-pieces s sep n long)

parse_headers-Declared : (lines : List Text) → Declared (parse_headers lines)
unfolding parse_headers
parse_headers-Declared [] = tt
parse_headers-Declared (line ∷ lines) =
    bind-Declared _ _ (split_n-Declared line (codes ":") 1 (omega arith)) λ parts.
      bind-Declared _ _ (header_of-Declared parts)
        λ header. bind-Declared _ _ (parse_headers-Declared lines) λ rest. tt

check-Declared : (b : Bool) → Declared (check b http_request_parse_error)
check-Declared true = tt
check-Declared false = tt

prefix-Declared : (s : Text) (n : ℕ) → Declared (substr s 0 n)
prefix-Declared s n = ok-Declared _ _ (substr_at s 0 n (omega arith))

parse_parts-Declared : (parts lines : List Text) → Declared (parse_parts parts lines)
unfolding parse_parts
parse_parts-Declared (m ∷ u ∷ v ∷ []) lines = bind-Declared _ _ (check-Declared _) λ a.
    bind-Declared _ _ (prefix-Declared v 5) λ prefix.
      bind-Declared _ _ (check-Declared _)
        λ b. bind-Declared _ _ (parse_headers-Declared lines) λ headers. tt
parse_parts-Declared _ lines = tt

parse_lines-Declared : (lines : List Text) → Declared (parse_lines lines)
unfolding parse_lines
parse_lines-Declared [] = tt
parse_lines-Declared (line ∷ lines) =
    bind-Declared _ _ (split_n-Declared line (codes " ") 2 (omega arith))
      λ parts. parse_parts-Declared parts lines

-- On every frame `parse_request_frame` returns a request or throws HttpRequestParseError: it throws
-- nothing else, does nothing undefined, and its loops end.
pub parse_request_frame-Declared : (frame : HttpFrame) → Declared (parse_request_frame frame)
unfolding parse_request_frame
parse_request_frame-Declared frame =
    bind-Declared _ _ (ok-Declared _ _ (split-pieces frame.contents crlf (omega arith)))
      λ lines. parse_lines-Declared lines

pub parse_request_frame-ends : (frame : HttpFrame) → parse_request_frame frame ≢ no_fuel
parse_request_frame-ends frame = λ e. subst Declared e (parse_request_frame-Declared frame)
