-- ===== src/Connection/Chunks.antt =====
-- `read_until` against the whole of what the peer sends, however it comes in chunks.
use cse124_httpserver.Base.{
  ℕ, ◌+◌, ◌≡◌, ◌≢◌, inl, inr, refl, sym, ap, subst, ◌∙◌, none, some, Option-cases, List, [], ◌∷◌,
  ◌++◌, append_assoc, append-nil, map, length, take, drop, take-append, drop-append, All, arith,
  Result, ok, throw, connection_closed, Text, text_eq, find_first, find_first-append, find_first-le,
  find_zero, false,
}
use cse124_httpserver.Util.{pop_n_sstream}
use cse124_httpserver.Util.Suffix.{pop_n_sstream-eq}
use cse124_httpserver.Connection.{Connection, popped, read_loop, read_until}

abbrev pub total : List Text → Text
total [] = []
total (c ∷ cs) = c ++ total cs

abbrev pub chunks : List Text → List (Result Text)
chunks cs = map (λ c. ok c) cs

-- A connection that has still to deliver these chunks, none of which is empty, and then closes.
abbrev pub Delivers : Connection → List Text → Type 0
Delivers c cs = (c.reads ≡ chunks cs) × All (λ t. t ≢ []) cs

-- What the connection's buffer and the chunks make up.
abbrev pub whole : Connection → List Text → Text
whole c cs = c.buffer ++ total cs

pub pop_found :
    (sep buffer : Text) (i : ℕ)
    → find_first sep buffer ≡ some i
    → pop_n_sstream buffer i (length sep) ≡ ok (take i buffer, drop (i + length sep) buffer)
pop_found sep buffer i e =
    let within = find_first-le sep buffer i e in
    pop_n_sstream-eq buffer i (length sep) (i + length sep) (omega arith) refl within

-- The outcome where the separator first stands at `i`: what is before it is returned, and what is
-- behind it is still to be read.
abbrev pub Found : Text → Connection → List Text → ℕ → Result Text × Connection → Type 0
Found sep c cs i result =
    (buffer : Text) × (rest : List Text) × (result
      ≡ (ok (take i (whole c cs)), record c { buffer = buffer; reads = chunks rest }))
    × (buffer ++ total rest ≡ drop (i + length sep) (whole c cs))
    × All (λ t. t ≢ []) rest

Found-cons :
    (sep : Text) (c : Connection) (chunk : Text) (cs : List Text) (i : ℕ)
    (result : Result Text × Connection)
    → Found sep (record c { reads = chunks cs; buffer = c.buffer ++ chunk }) cs i result
    → Found sep c (chunk ∷ cs) i result
Found-cons sep c chunk cs i result (buffer, rest, e, behind, full) =
    let same = append_assoc c.buffer chunk (total cs) in
    (buffer, rest, rw (← same) e, rw (← same) behind, full)

pop-Found :
    (sep : Text) (c : Connection) (cs : List Text) (i j : ℕ)
    → All (λ t. t ≢ []) cs
    → find_first sep c.buffer ≡ some j
    → find_first sep (whole c cs) ≡ some i
    → Found sep c cs i
        (popped (pop_n_sstream c.buffer j (length sep)) (record c { reads = chunks cs }))
pop-Found sep c cs i j full e e' =
    let same : some i ≡ some j = sym e' ∙ find_first-append sep c.buffer (total cs) j e in
    let k : i ≡ j = ground arith in
    let within = find_first-le sep c.buffer j e in
    (
      drop (j + length sep) c.buffer,
      cs,
      rw (pop_found sep c.buffer j e, k, take-append j c.buffer (total cs) (omega arith)),
      rw k (sym (drop-append (j + length sep) c.buffer (total cs) within)),
      full,
    )

not_blank : (chunk : Text) → chunk ≢ [] → text_eq chunk [] ≡ false
unfolding text_eq
not_blank [] ne = absurd (ne refl)
not_blank (c ∷ chunk) ne = refl

pub read_loop_more :
    (sep chunk : Text) (reads : List (Result Text)) (c : Connection)
    → chunk ≢ []
    → find_first sep (c.buffer ++ chunk) ≡ none
    → read_loop sep (ok chunk ∷ reads) c
      ≡ read_loop sep reads (record c { reads = reads; buffer = c.buffer ++ chunk })
read_loop_more sep chunk reads c ne e =
    unfold read_loop in
    rw (find_zero (c.buffer ++ chunk) sep ∙ e, read_loop) (rw (not_blank chunk ne))

pub read_loop_pop :
    (sep chunk : Text) (reads : List (Result Text)) (c : Connection) (j : ℕ)
    → find_first sep (c.buffer ++ chunk) ≡ some j
    → read_loop sep (ok chunk ∷ reads) c
      ≡ popped
          (pop_n_sstream (c.buffer ++ chunk) j (length sep))
          (record c { reads = reads; buffer = c.buffer ++ chunk })
read_loop_pop sep chunk reads c j e =
    unfold read_loop in rw (find_zero (c.buffer ++ chunk) sep ∙ e, read_loop)

read_loop-Found :
    (sep : Text) (cs : List Text) (c : Connection) (i : ℕ)
    → All (λ t. t ≢ []) cs
    → find_first sep c.buffer ≡ none
    → find_first sep (whole c cs) ≡ some i
    → Found sep c cs i (read_loop sep (chunks cs) c)
read_loop-Found sep [] c i full miss e =
    let found : find_first sep c.buffer ≡ some i =
      sym (ap (find_first sep) (append-nil c.buffer)) ∙ e in
    cc
read_loop-Found sep (chunk ∷ cs) c i full miss e =
    let c' = record c { reads = chunks cs; buffer = c.buffer ++ chunk } in
    let same : whole c' cs ≡ whole c (chunk ∷ cs) = append_assoc c.buffer chunk (total cs) in
    let e' : find_first sep (whole c' cs) ≡ some i = rw same e in
    elim (Option-cases (find_first sep (c.buffer ++ chunk))) [
      | inl none_yet ↦
          rw (read_loop_more sep chunk (chunks cs) c full.0 none_yet)
            (Found-cons sep c chunk cs i _ (read_loop-Found sep cs c' i full.1 none_yet e'))
      | inr (j, found) ↦
          rw (read_loop_pop sep chunk (chunks cs) c j found)
            (Found-cons sep c chunk cs i _ (pop-Found sep c' cs i j full.1 found e'))
    ]

pub read_until_more :
    (sep : Text) (c : Connection)
    → find_first sep c.buffer ≡ none
    → read_until sep c ≡ read_loop sep c.reads c
read_until_more sep c e = unfold read_until in rw (find_zero c.buffer sep ∙ e, read_until)

read_until_pop :
    (sep : Text) (c : Connection) (j : ℕ)
    → find_first sep c.buffer ≡ some j
    → read_until sep c ≡ popped (pop_n_sstream c.buffer j (length sep)) c
read_until_pop sep c j e = unfold read_until in rw (find_zero c.buffer sep ∙ e, read_until)

-- If the separator is anywhere in what the connection has and will deliver, in chunks none of which
-- is empty, `read_until` returns what is before its first place, and leaves what is behind it for
-- the next call, however the text is cut into chunks.
pub read_until-Found :
    (sep : Text) (c : Connection) (cs : List Text) (i : ℕ)
    → Delivers c cs
    → find_first sep (whole c cs) ≡ some i
    → Found sep c cs i (read_until sep c)
read_until-Found sep c cs i (comes, full) e = elim (Option-cases (find_first sep c.buffer)) [
  | inl miss ↦
      subst (Found sep c cs i)
        (sym (read_until_more sep c miss ∙ ap (λ r. read_loop sep r c) comes))
        (read_loop-Found sep cs c i full miss e)
  | inr (j, found) ↦
      let same : record c { reads = chunks cs } ≡ c = λ k. record c { reads = sym comes k } in
      subst (Found sep c cs i)
        (ap (popped (pop_n_sstream c.buffer j (length sep))) same
          ∙ sym (read_until_pop sep c j found))
        (pop-Found sep c cs i j full found e)
]

pub find_first-none_of_append :
    (sep x y : Text) → find_first sep (x ++ y) ≡ none → find_first sep x ≡ none
find_first-none_of_append sep x y e = elim (Option-cases (find_first sep x)) [
  | inl miss ↦ miss
  | inr (j, found) ↦ let later = find_first-append sep x y j found in cc
]

read_loop-closed :
    (sep : Text) (cs : List Text) (c : Connection)
    → All (λ t. t ≢ []) cs
    → find_first sep (whole c cs) ≡ none
    → read_loop sep (chunks cs) c
      ≡ (throw connection_closed, record c { reads = []; buffer = whole c cs })
read_loop-closed sep [] c full e = unfold read_loop in rw append-nil
read_loop-closed sep (chunk ∷ cs) c full e =
    let same = append_assoc c.buffer chunk (total cs) in
    let miss = find_first-none_of_append sep (c.buffer ++ chunk) (total cs) (rw same e) in
    read_loop_more sep chunk (chunks cs) c full.0 miss
    ∙ read_loop-closed sep cs (record c { reads = chunks cs; buffer = c.buffer ++ chunk }) full.1
        (rw same e)
    ∙ rw same

-- If the separator is nowhere in what the connection has and will deliver, in chunks none of which
-- is empty, `read_until` takes all of it into the buffer and throws `ConnectionClosed`.
pub read_until-closed :
    (sep : Text) (c : Connection) (cs : List Text)
    → Delivers c cs
    → find_first sep (whole c cs) ≡ none
    → read_until sep c ≡ (throw connection_closed, record c { reads = []; buffer = whole c cs })
read_until-closed sep c cs (comes, full) e =
    read_until_more sep c (find_first-none_of_append sep c.buffer (total cs) e)
    ∙ ap (λ r. read_loop sep r c) comes
    ∙ read_loop-closed sep cs c full e
