-- ===== src/Util/Path.antt =====
-- `canonicalize_path`: what it returns is rooted, has only plain names in it, and does not change
-- when it is canonicalised again.
use cse124_httpserver.Base.{
  ◌≡◌, ◌≢◌, ◌⊎◌, inl, inr, refl, sym, ◌∙◌, Option, none, some, List, [], ◌∷◌, ◌++◌, append_assoc,
  append-nil, arith, All, All-append, Text, codes, text_eq, text_eq_iff, Lacks, ok, find_first,
}
use cse124_httpserver.Util.{split, join, pop_back, canonical_parts, rooted, canonicalize_path}
use cse124_httpserver.Util.Pieces.{split_lem, split-join, Free}

-- A name that can be looked up in a directory and leads no further than into it.
abbrev pub IsSafe : Text → Type 0
IsSafe p = (p ≢ []) × (p ≢ codes ".") × (p ≢ codes "..") × Lacks b'/' p

abbrev pub IsCanonical : Text → Type 0
IsCanonical path =
    (parts : List Text) × (path ≡ codes "/" ++ join (codes "/") parts) × All IsSafe parts

Lacks-of_Free : (p : Text) → Free (codes "/") p → Lacks b'/' p
unfolding find_first
Lacks-of_Free [] h = tt
Lacks-of_Free (c ∷ p) h = ground (arith, Lacks-of_Free p)

All-Lacks : (ps : List Text) → All (Free (codes "/")) ps → All (Lacks b'/') ps
All-Lacks [] h = tt
All-Lacks (p ∷ ps) h = (Lacks-of_Free p h.0, All-Lacks ps h.1)

pub All-IsSafe-Lacks : (ps : List Text) → All IsSafe ps → All (Lacks b'/') ps
All-IsSafe-Lacks [] h = tt
All-IsSafe-Lacks (p ∷ ps) h = (h.0.3, All-IsSafe-Lacks ps h.1)

pop_back-IsSafe : (v : List Text) → All IsSafe v → All IsSafe (pop_back v)
pop_back-IsSafe [] h = tt
pop_back-IsSafe (x ∷ []) h = tt
pop_back-IsSafe (x ∷ y ∷ v) h = (h.0, pop_back-IsSafe (y ∷ v) h.1)

abbrev AllSafe : Option (List Text) → Type 0
AllSafe none = Unit
AllSafe (some v) = All IsSafe v

canonical_parts-IsSafe :
    (valid parts : List Text)
    → All IsSafe valid
    → All (Lacks b'/') parts
    → AllSafe (canonical_parts valid parts)
unfolding canonical_parts
canonical_parts-IsSafe valid [] h l = h
canonical_parts-IsSafe valid (p ∷ parts) h l = ground (
  arith,
  canonical_parts-IsSafe valid parts h l.1,
  canonical_parts-IsSafe (pop_back valid) parts (pop_back-IsSafe valid h) l.1,
  canonical_parts-IsSafe (valid ++ p ∷ []) parts,
  All-append IsSafe valid (p ∷ []) h,
  text_eq_iff p [],
  text_eq_iff p (codes "."),
  text_eq_iff p (codes ".."),
)

-- Parts that are safe are kept as they are.
canonical_parts_safe :
    (valid parts : List Text)
    → All IsSafe parts
    → canonical_parts valid parts ≡ some (valid ++ parts)
unfolding canonical_parts
canonical_parts_safe valid [] h = rw append-nil
canonical_parts_safe valid (p ∷ parts) ((x, y, z, _), h) = ground (
  arith,
  canonical_parts_safe (valid ++ p ∷ []) parts h,
  append_assoc valid (p ∷ []) parts,
  text_eq_iff p [],
  text_eq_iff p (codes "."),
  text_eq_iff p (codes ".."),
)

pub canonicalize_split :
    (path : Text) (parts : List Text)
    → path ≢ []
    → split path (codes "/") ≡ ok parts
    → canonicalize_path path ≡ ok (rooted (canonical_parts [] parts))
canonicalize_split path parts ne e =
    unfold canonicalize_path in ground (arith, text_eq_iff path [], e)

rooted-IsCanonical : (o : Option (List Text)) → AllSafe o → (rooted o ≡ []) ⊎ IsCanonical (rooted o)
rooted-IsCanonical none h = inl refl
rooted-IsCanonical (some v) h = inr (v, refl, h)

-- `canonicalize_path` returns, on every path; what it returns is empty, or a "/" before names
-- that are joined by "/", none of which is empty, ".", ".." or holds a "/".
pub canonicalize_path-IsCanonical :
    (path : Text) → (r : Text) × (canonicalize_path path ≡ ok r) × ((r ≡ []) ⊎ IsCanonical r)
canonicalize_path-IsCanonical [] = ([], unfold canonicalize_path text_eq in refl, inl refl)
canonicalize_path-IsCanonical (c ∷ path) =
    let (parts, e, _, free) = split_lem (c ∷ path) (codes "/") (omega arith) in
    (
      rooted (canonical_parts [] parts),
      canonicalize_split (c ∷ path) parts (λ x. cc) e,
      rooted-IsCanonical (canonical_parts [] parts)
          (canonical_parts-IsSafe [] parts tt (All-Lacks parts free)),
    )

-- The parts of a canonical path, as `split` finds them.
split_canonical :
    (parts : List Text)
    → All IsSafe parts
    → (qs : List Text) × (split (codes "/" ++ join (codes "/") parts) (codes "/") ≡ ok ([] ∷ qs))
      × (canonical_parts [] qs ≡ some parts)
split_canonical [] h =
    ([] ∷ [], unfold split text_eq join find_first in refl, unfold canonical_parts text_eq in refl)
split_canonical (p ∷ ps) h = (
  p ∷ ps,
  unfold join in split-join b'/' [] [] (p ∷ ps) (tt, All-IsSafe-Lacks (p ∷ ps) h),
  canonical_parts_safe [] (p ∷ ps) h,
)

canonical_parts-empty :
    (valid parts : List Text) → canonical_parts valid ([] ∷ parts) ≡ canonical_parts valid parts
unfolding canonical_parts text_eq
canonical_parts-empty valid parts = refl

IsCanonical-fixed : (path : Text) → IsCanonical path → canonicalize_path path ≡ ok path
IsCanonical-fixed path (parts, e, h) =
    let (qs, cut, walk) = split_canonical parts h in
    rw e (
      canonicalize_split (codes "/" ++ join (codes "/") parts) ([] ∷ qs) (λ x. cc) cut
      ∙ rw (canonical_parts-empty, walk))

-- A second `canonicalize_path` changes nothing.
canonicalize_path_idempotent :
    (path r : Text) → canonicalize_path path ≡ ok r → canonicalize_path r ≡ ok r
canonicalize_path_idempotent path r h =
    let (r', e, shape) = canonicalize_path-IsCanonical path in
    let same : r' ≡ r = cc in
    elim shape [
      | inl empty ↦ rw (sym same ∙ empty) (unfold canonicalize_path text_eq in refl)
      | inr canonical ↦ rw (← same) (IsCanonical-fixed r' canonical)
    ]
