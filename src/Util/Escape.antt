-- ===== src/Util/Escape.antt =====
-- When `canonicalize_path` refuses a path: a prefix of it climbs above the root.
use cse124_httpserver.Base.{
  ℕ, ◌+◌, ◌-◌, ◌<◌, ◌≡◌, ◌≢◌, ◌⊎◌, ◌↔◌, inl, inr, refl, sym, ap, ◌∙◌, Option, none, some, List, [],
  ◌||◌, ◌∷◌, ◌++◌, arith, length, length-append, Text, codes, text_eq, text_eq_iff, Bool-cases,
  ◌==◌, if◌then◌else◌, ok,
}
use cse124_httpserver.Util.{split, pop_back, canonical_parts, rooted, canonicalize_path}
use cse124_httpserver.Util.Path.{canonicalize_split}

-- How many parts of a path lead up, and how many lead down.
abbrev pub ups : List Text → ℕ
ups [] = 0
ups (p ∷ ps) = (if text_eq p (codes "..") then 1 else 0) + ups ps

abbrev pub downs : List Text → ℕ
downs [] = 0
downs (p ∷ ps) =
    (if text_eq p [] || (text_eq p (codes ".") || text_eq p (codes "..")) then 0 else 1) + downs ps

-- After some of the parts, the path has gone up more often than down, from `depth` below the root.
abbrev pub Climbs : ℕ → List Text → Type 0
Climbs depth parts =
    (before : List Text) × (after : List Text) × (parts ≡ before ++ after)
    × (depth + downs before < ups before)

length-pop_back : (v : List Text) → length (pop_back v) ≡ length v - 1
length-pop_back [] = omega arith
length-pop_back (x ∷ []) = omega arith
length-pop_back (x ∷ y ∷ v) = omega (arith, length-pop_back (y ∷ v))

-- What one part does: it is taken and the depth follows it, or it leads up from the root.
abbrev Moves : List Text → Text → List Text → Type 0
Moves valid p parts =
    ((valid' : List Text) × (canonical_parts valid (p ∷ parts) ≡ canonical_parts valid' parts)
      × (length valid' + ups (p ∷ []) ≡ length valid + downs (p ∷ [])))
    ⊎ ((canonical_parts valid (p ∷ parts) ≡ none) × (length valid + downs (p ∷ []) < ups (p ∷ [])))

canonical_parts-Moves : (valid : List Text) (p : Text) (parts : List Text) → Moves valid p parts
canonical_parts-Moves valid p parts = elim (Bool-cases (text_eq p [])) [
  | inl e ↦ inl (
    valid,
    unfold canonical_parts in rw e,
    ground (arith, text_eq_iff p [], text_eq_iff p (codes "..")),
  )
  | inr e ↦ elim (Bool-cases (text_eq p (codes "."))) [
    | inl e' ↦ inl (
      valid,
      unfold canonical_parts in rw (e, e'),
      ground (arith, text_eq_iff p (codes "."), text_eq_iff p (codes "..")),
    )
    | inr e' ↦ elim (Bool-cases (text_eq p (codes ".."))) [
      | inl up ↦ elim (Bool-cases (length valid == 0)) [
        | inl root ↦ inr (unfold canonical_parts in rw (e, e', up, root), ground arith)
        | inr below ↦ inl (
          pop_back valid,
          unfold canonical_parts in rw (e, e', up, below),
          ground (arith, length-pop_back valid),
        )
      ]
      | inr name ↦ inl (
        valid ++ p ∷ [],
        unfold canonical_parts in rw (e, e', name),
        ground (arith, length-append valid (p ∷ [])),
      )
    ]
  ]
]

Climbs-cons :
    (d d' : ℕ) (p : Text) (ps : List Text)
    → d' + ups (p ∷ []) ≡ d + downs (p ∷ [])
    → Climbs d' ps
    → Climbs d (p ∷ ps)
Climbs-cons d d' p ps h (before, after, e, more) = (p ∷ before, after, ap (◌∷◌ p) e, omega arith)

Climbs-tail :
    (d d' : ℕ) (p : Text) (ps : List Text)
    → d' + ups (p ∷ []) ≡ d + downs (p ∷ [])
    → Climbs d (p ∷ ps)
    → Climbs d' ps
Climbs-tail d d' p ps h ([], after, e, more) = absurd (omega arith)
Climbs-tail d d' p ps h (q ∷ before, after, e, more) =
    let same : p ≡ q = cc in
    let more' : d + downs (p ∷ before) < ups (p ∷ before) = rw same more in
    (before, after, cc, omega arith)

not-Climbs-nil : (d : ℕ) → ¬ Climbs d []
not-Climbs-nil d ([], after, e, more) = omega arith
not-Climbs-nil d (q ∷ before, after, e, more) = cc

rooted-nil_iff : (o : Option (List Text)) → (ok (rooted o) ≡ ok []) ↔ (o ≡ none)
rooted-nil_iff none = (λ _. refl, λ _. refl)
rooted-nil_iff (some v) = (λ e. cc, λ e. cc)

-- From `valid`, the walk is refused exactly when it climbs above the root.
canonical_parts-none_iff :
    (valid parts : List Text) → (canonical_parts valid parts ≡ none) ↔ Climbs (length valid) parts
canonical_parts-none_iff valid [] =
    (λ h. unfold canonical_parts in cc, λ c. absurd (not-Climbs-nil (length valid) c))
canonical_parts-none_iff valid (p ∷ parts) = elim (canonical_parts-Moves valid p parts) [
  | inl (valid', e, d) ↦
      let ih = canonical_parts-none_iff valid' parts in
      (
        λ h. Climbs-cons (length valid) (length valid') p parts d (ih.0 (sym e ∙ h)),
        λ c. e ∙ ih.1 (Climbs-tail (length valid) (length valid') p parts d c),
      )
  | inr (e, d) ↦ (λ _. (p ∷ [], parts, refl, d), λ _. e)
]

-- A path other than "" is refused, with "" for an answer, exactly when some prefix of its parts, as
-- `split` finds them, has more ".." than names.
pub canonicalize_path-refused_iff :
    (path : Text) (parts : List Text)
    → path ≢ []
    → split path (codes "/") ≡ ok parts
    → (canonicalize_path path ≡ ok []) ↔ Climbs 0 parts
canonicalize_path-refused_iff path parts ne e =
    let walk = canonical_parts-none_iff [] parts in
    let answer = rooted-nil_iff (canonical_parts [] parts) in
    rw (canonicalize_split path parts ne e) (λ h. walk.0 (answer.0 h), λ c. answer.1 (walk.1 c))
