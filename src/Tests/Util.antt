-- ===== src/Tests/Util.antt =====
-- util.cpp on examples.
use cse124_httpserver.Base.{
  ◌≡◌, ◌↔◌, ◌⊎◌, refl, arith, List, [], ◌∷◌, All, Text, codes, text_eq, ok, pos,
}
use cse124_httpserver.Util.{split, split_n, join, canonicalize_path}
use cse124_httpserver.Util.Pieces.{Free, split_lem, split-join}
use cse124_httpserver.Util.Path.{IsCanonical, canonicalize_path-IsCanonical}
use cse124_httpserver.Util.Escape.{Climbs, canonicalize_path-refused_iff}

split_words :
    split (codes "dogabcatabbearab") (codes "ab")
    ≡ ok (codes "dog" ∷ codes "cat" ∷ codes "bear" ∷ [] ∷ [])
unfolding split text_eq
split_words = refl

split_letters : split (codes "foo") [] ≡ ok (codes "f" ∷ codes "o" ∷ codes "o" ∷ [])
unfolding split text_eq
split_letters = refl

split_once :
    split_n (codes "aaa bbb ccc") (codes " ") (pos 1) ≡ ok (codes "aaa" ∷ codes "bbb ccc" ∷ [])
unfolding split_n text_eq
split_once = refl

canonicalize_dots :
    canonicalize_path (codes "/foo/./bar/../baz/./cat/./../../bar") ≡ ok (codes "/foo/bar")
unfolding canonicalize_path text_eq
canonicalize_dots = refl

climbing_parts :
    split (codes "/a/../../b") (codes "/")
    ≡ ok ([] ∷ codes "a" ∷ codes ".." ∷ codes ".." ∷ codes "b" ∷ [])
unfolding split text_eq
climbing_parts = refl

split_lem_example :
    (parts : List Text) × (split (codes "a, b, c") (codes ", ") ≡ ok parts)
    × (join (codes ", ") parts ≡ codes "a, b, c")
    × All (Free (codes ", ")) parts
split_lem_example = split_lem (codes "a, b, c") (codes ", ") (omega arith)

split-join_example :
    split (join (codes "\n") (codes "allow" ∷ codes "deny" ∷ [])) (codes "\n")
    ≡ ok (codes "allow" ∷ codes "deny" ∷ [])
split-join_example = split-join 10 [] (codes "allow") (codes "deny" ∷ []) (ground arith)

canonicalize_path-IsCanonical_example :
    (r : Text) × (canonicalize_path (codes "/foo/./bar/../baz") ≡ ok r) × ((r ≡ []) ⊎ IsCanonical r)
canonicalize_path-IsCanonical_example = canonicalize_path-IsCanonical (codes "/foo/./bar/../baz")

canonicalize_path-refused_iff_example :
    (canonicalize_path (codes "/a/../../b") ≡ ok [])
    ↔ Climbs 0 ([] ∷ codes "a" ∷ codes ".." ∷ codes ".." ∷ codes "b" ∷ [])
canonicalize_path-refused_iff_example =
    canonicalize_path-refused_iff (codes "/a/../../b")
      ([] ∷ codes "a" ∷ codes ".." ∷ codes ".." ∷ codes "b" ∷ []) (λ e. cc) climbing_parts
