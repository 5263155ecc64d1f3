-- ===== src/Util.antt =====
-- util.h and util.cpp: strings, paths and the stream buffer. Proofs are in the child modules.
-- The members of `std::string` are in Base/Strings; here stand the calls that can throw.
pub mod Split
pub mod Suffix
pub mod Decimal
pub mod Escape
pub mod Path
pub mod Pieces
pub mod System
use cse124_httpserver.Base.{
  ℕ, zero, suc, ◌+◌, ◌-◌, ◌*◌, ◌/◌, ◌%◌, min, ℤ, pos, negsuc, Bool, true, false, ◌&&◌, ◌||◌, Option,
  none, some, List, [], ◌∷◌, ◌++◌, map, length, take, drop, ltb, leb, ◌==◌, if◌then◌else◌, Text,
  codes, text_eq, find, Result, ok, throw, undefined, no_fuel, ◌>>=◌, ◌>>◌, check, out_of_range,
  invalid_argument,
}

-- `s.substr(start, count)`
unfoldable pub substr : Text → ℕ → ℕ → Result Text
substr s start count = do check (leb start (length s)) out_of_range; ok (take count (drop start s))

-- `n_splits < 0 || strs.size() < (size_t) n_splits`
abbrev pub may_split : ℤ → ℕ → Bool
may_split (negsuc _) size = true
may_split (pos n) size = ltb size n

-- `max(s.find(sep, start), end + 1)`
abbrev pub max_pos : Option ℕ → ℕ → Option ℕ
max_pos none m = none
max_pos (some i) m = some (if ltb i m then m else i)

-- The loop of `split_n`. An `end` of `npos` is never below `s.size()`.
pub split_loop : ℕ → Text → Text → ℤ → List Text → ℕ → Option ℕ → Result (List Text)
split_loop zero s sep n strs start end = no_fuel
split_loop (suc f) s sep n strs start none = do
  last ← substr s start (length s)
  ok (strs ++ last ∷ [])
split_loop (suc f) s sep n strs start (some end) =
    let start' = end + length sep in
    let continued = (do
      part ← substr s start (end - start)
      split_loop f s sep n (strs ++ part ∷ []) start' (max_pos (find s sep start') (end + 1))) in
    let finished = (do last ← substr s start (length s); ok (strs ++ last ∷ [])) in
    if ltb end (length s) && may_split n (length strs) then continued else finished

-- One round for each byte and one more are enough.
unfoldable pub split_n : Text → Text → ℤ → Result (List Text)
unfolding split_loop substr find
split_n s sep n =
    let end = (if text_eq sep [] then some 1 else find s sep 0) in
    split_loop (suc (length s)) s sep n [] 0 end

unfoldable pub split : Text → Text → Result (List Text)
unfolding split_n
split s sep = split_n s sep (negsuc 0)

-- The rounds of `join` after the first.
pub join_rest : Text → List Text → Text
join_rest joiner [] = []
join_rest joiner (p ∷ ps) = joiner ++ (p ++ join_rest joiner ps)

unfoldable pub join : Text → List Text → Text
unfolding join_rest
join joiner [] = []
join joiner (p ∷ ps) = p ++ join_rest joiner ps

-- `::tolower` in the "C" locale
unfoldable pub tolower : ℕ → ℕ
tolower c = if leb b'A' c && leb c b'Z' then c + 32 else c

unfoldable pub to_lowercase : Text → Text
unfolding tolower
to_lowercase s = map tolower s

-- The popped text, and the new contents of the buffer.
unfoldable pub pop_n_sstream : Text → ℕ → ℕ → Result (Text × Text)
unfolding substr
pop_n_sstream buffer n discard = do
  popped ← substr buffer 0 (min n (length buffer))
  remaining ← substr buffer (min (n + discard) (length buffer)) (length buffer)
  ok (popped, remaining)

unfoldable pub ends_with : Text → Text → Result Bool
unfolding substr
ends_with s suffix =
    if ltb (length s) (length suffix)
    then ok false
    else (do tail ← substr s (length s - length suffix) (length s); ok (text_eq tail suffix))

abbrev pub pop_back {ℓ} : {A : Type ℓ} → List A → List A
pop_back [] = []
pop_back (x ∷ []) = []
pop_back (x ∷ y ∷ xs) = x ∷ pop_back (y ∷ xs)

-- The loop of `canonicalize_path`; `none` is its `return ""`.
pub canonical_parts : List Text → List Text → Option (List Text)
canonical_parts valid [] = some valid
canonical_parts valid (part ∷ parts) =
    let same = canonical_parts valid parts in
    let up = canonical_parts (pop_back valid) parts in
    let down = canonical_parts (valid ++ part ∷ []) parts in
    if text_eq part []
    then same
    else if text_eq part (codes ".")
    then same
    else if text_eq part (codes "..")
    then (if length valid == 0 then none else up)
    else down

abbrev pub rooted : Option (List Text) → Text
rooted none = []
rooted (some valid) = codes "/" ++ join (codes "/") valid

unfoldable pub canonicalize_path : Text → Result Text
unfolding split canonical_parts join
canonicalize_path path =
    if text_eq path []
    then ok []
    else (do parts ← split path (codes "/"); ok (rooted (canonical_parts [] parts)))
