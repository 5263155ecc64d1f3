-- ===== src/Util/Suffix.antt =====
-- `ends_with`, and the calls of `substr` that cannot throw.
use cse124_httpserver.Base.{
  ℕ, ◌+◌, ◌-◌, ◌≤◌, min, ◌≡◌, ◌↔◌, inl, inr, refl, sym, ap, ◌∙◌, true, false, Bool, ◌++◌, arith,
  length, take, drop, take_all, length-drop, length-append, take-append-drop, drop-length_append,
  take-length_append, drop-drop, Text, text_eq, text_eq_iff, text_eq_refl, Bool-cases, ltb, le→leb,
  ltb→lt, ok,
}
use cse124_httpserver.Util.{substr, ends_with, pop_n_sstream}

pub substr_at :
    (s : Text) (start n : ℕ) → start ≤ length s → substr s start n ≡ ok (take n (drop start s))
unfolding substr
substr_at s start n h = rw (le→leb _ _ h)

not-ltb : (a b : ℕ) → b ≤ a → ltb a b ≡ false
not-ltb a b h = ground arith

ends_with_long :
    (s suffix : Text)
    → length suffix ≤ length s
    → ends_with s suffix ≡ ok (text_eq (drop (length s - length suffix) s) suffix)
ends_with_long s suffix h =
    let whole =
      take_all (length s) (drop (length s - length suffix) s)
        (omega (arith, length-drop (length s - length suffix) s)) in
    unfold ends_with in
    rw (not-ltb _ _ h, substr_at s (length s - length suffix) (length s) (omega arith), whole)

-- `ends_with` says true for a text with the suffix at its end.
pub ends_with-append : (s suffix : Text) → ends_with (s ++ suffix) suffix ≡ ok true
ends_with-append s suffix =
    let all = length-append s suffix in
    let cut : length (s ++ suffix) - length suffix ≡ length s = omega arith in
    ends_with_long (s ++ suffix) suffix (omega arith)
    ∙ rw (cut, drop-length_append s suffix, text_eq_refl)

ends_with-end :
    (s suffix before rest : Text)
    → before ++ suffix ≡ s
    → ends_with s suffix ≡ ok (text_eq rest suffix)
    → text_eq rest suffix ≡ true
ends_with-end s suffix before rest e h =
    let found : ends_with s suffix ≡ ok true = rw e at (ends_with-append before suffix) in cc

-- `ends_with` returns, on every two texts, and says true exactly if the second is the end of the
-- first.
pub ends_with_iff :
    (s suffix : Text)
    → (b : Bool) × (ends_with s suffix ≡ ok b)
      × ((b ≡ true) ↔ ((before : Text) × (before ++ suffix ≡ s)))
ends_with_iff s suffix = elim (Bool-cases (ltb (length s) (length suffix))) [
  | inl short ↦ (
    false,
    unfold ends_with in rw short,
    (
      λ h. cc,
      λ (before, e).
          absurd (omega (arith, ltb→lt _ _ short, length-append before suffix, ap length e)),
    ),
  )
  | inr long ↦
      let rest = drop (length s - length suffix) s in
      (
        text_eq rest suffix,
        ends_with_long s suffix (ground arith),
        (
          λ h. (
            take (length s - length suffix) s,
            ap (◌++◌ (take (length s - length suffix) s)) (sym ((text_eq_iff rest suffix).0 h))
                ∙ take-append-drop (length s - length suffix) s,
          ),
          λ (before, e).
              ends_with-end s suffix before rest e (ends_with_long s suffix (ground arith)),
        ),
      )
]

pub pop_n_sstream-eq :
    (buffer : Text) (n k m : ℕ)
    → n ≤ length buffer
    → m ≡ n + k
    → m ≤ length buffer
    → pop_n_sstream buffer n k ≡ ok (take n buffer, drop m buffer)
pop_n_sstream-eq buffer n k m h e h' =
    let first : min n (length buffer) ≡ n = omega arith in
    let second : min (n + k) (length buffer) ≡ m = omega arith in
    unfold pop_n_sstream in
    rw (
      first,
      second,
      substr_at buffer 0 n (omega arith),
      substr_at buffer m (length buffer) h',
      take_all (length buffer) (drop m buffer) (omega (arith, length-drop m buffer)),
    )

-- Of a buffer of three texts, popping as many bytes as the first has and discarding as many as the
-- second has returns the first and leaves the third.
pop_n_sstream_at : (a b c : Text) → pop_n_sstream (a ++ (b ++ c)) (length a) (length b) ≡ ok (a, c)
pop_n_sstream_at a b c =
    let size = length-append a (b ++ c) in
    let size' = length-append b c in
    pop_n_sstream-eq (a ++ (b ++ c)) (length a) (length b) (length a + length b) (omega arith) refl
      (omega arith)
    ∙ rw (
      take-length_append a,
      ← drop-drop (length b) (length a) _ (a ++ (b ++ c)) refl,
      drop-length_append a,
      drop-length_append b,
    )
