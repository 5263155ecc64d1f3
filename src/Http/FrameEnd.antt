-- ===== src/Http/FrameEnd.antt =====
-- Where the blank line stands that ends the frame of a well-formed request.
use cse124_httpserver.Base.{
  ℕ, ◌+◌, ◌≡◌, ◌≢◌, refl, some, List, [], ◌∷◌, ◌++◌, map, append_assoc, arith, length,
  length-append, All, Text, find_first, find_first-append_Lacks, is_prefix, Lacks,
}
use cse124_httpserver.Util.{join}
use cse124_httpserver.Util.Pieces.{join-singleton, join-cons}
use cse124_httpserver.Http.{crlf, HttpHeader, HttpRequest}
use cse124_httpserver.Http.Parse.{request_line}
use cse124_httpserver.Http.RoundTrip.{IsWellFormed, frame_of, header_line}

-- A line without a CR that is not blank.
abbrev IsLine : Text → Type 0
IsLine l = Lacks 13 l × (l ≢ [])

find_first-skip :
    (c : ℕ) (p x s : Text) (j : ℕ)
    → Lacks c x
    → find_first (c ∷ p) s ≡ some j
    → find_first (c ∷ p) (x ++ s) ≡ some (length x + j)
unfolding find_first
find_first-skip c p [] s j h e = ground arith
find_first-skip c p (d ∷ x) s j h e = ground (arith, find_first-skip c p x s j h.1 e)

find_first-crlf :
    (d : ℕ) (s : Text) (j : ℕ)
    → d ≢ 13
    → find_first (crlf ++ crlf) (d ∷ s) ≡ some j
    → find_first (crlf ++ crlf) (crlf ++ (d ∷ s)) ≡ some (2 + j)
unfolding find_first is_prefix
find_first-crlf d s j h e = ground arith

join-IsLine :
    (k : Text) (ls : List Text) (s : Text)
    → IsLine k
    → (d : ℕ) × (t : Text) × (d ≢ 13) × (join crlf (k ∷ ls) ++ s ≡ d ∷ t)
unfolding join
join-IsLine [] ls s h = absurd (h.1 refl)
join-IsLine (d ∷ k) ls s h = (d, _, h.0.0, refl)

find_first-lines :
    (l : Text) (ls : List Text) (s : Text)
    → IsLine l
    → All IsLine ls
    → find_first (crlf ++ crlf) (join crlf (l ∷ ls) ++ ((crlf ++ crlf) ++ s))
      ≡ some (length (join crlf (l ∷ ls)))
find_first-lines l [] s h hs =
    rw join-singleton (find_first-append_Lacks 13 (10 ∷ 13 ∷ 10 ∷ []) l s h.0)
find_first-lines l (k ∷ ls) s h hs =
    let end = (crlf ++ crlf) ++ s in
    let later = join crlf (k ∷ ls) in
    let (d, t, other, opened) = join-IsLine k ls end hs.0 in
    let found = rw opened at (find_first-lines k ls s hs.0 hs.1) in
    let after : find_first (crlf ++ crlf) (crlf ++ (later ++ end)) ≡ some (2 + length later) =
      rw opened (find_first-crlf d t (length later) other found) in
    let size : length (l ++ (crlf ++ later)) ≡ length l + (2 + length later) =
      omega (arith, length-append l (crlf ++ later)) in
    rw (join-cons, size, append_assoc) (find_first-skip 13 (10 ∷ 13 ∷ 10 ∷ []) l _ _ h.0 after)

append-not_nil : (x y : Text) (c : ℕ) → (x ++ (c ∷ y)) ≢ []
append-not_nil [] y c = λ e. cc
append-not_nil (d ∷ x) y c = λ e. cc

header_lines-IsLine :
    (hs : List HttpHeader)
    → All (λ h. Lacks 13 (header_line h)) hs
    → All IsLine (map header_line hs)
header_lines-IsLine [] a = tt
header_lines-IsLine (h ∷ hs) a =
    ((a.0, append-not_nil h.key h.value b':'), header_lines-IsLine hs a.1)

-- The first blank line in the text of a well-formed request, whatever follows it, is its end.
pub frame_of-end :
    (r : HttpRequest) (s : Text)
    → IsWellFormed r
    → find_first (crlf ++ crlf) ((frame_of r).contents ++ ((crlf ++ crlf) ++ s))
      ≡ some (length (frame_of r).contents)
frame_of-end r s v =
    find_first-lines (request_line r) (map header_line r.headers) s
      (v.line_lacks, append-not_nil r.method _ b' ') (header_lines-IsLine r.headers v.headers_lack)
