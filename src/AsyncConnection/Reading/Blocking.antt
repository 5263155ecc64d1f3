-- ===== src/AsyncConnection/Reading/Blocking.antt =====
-- The callback form of `read_until` against the blocking one.
use cse124_httpserver.Base.{
  ℕ, ◌+◌, ◌<◌, ◌≡◌, ◌≢◌, inl, inr, refl, sym, ap, ◌∙◌, true, false, none, some, Option-cases, List,
  [], ◌∷◌, ◌++◌, append_assoc, append-nil, map, length, take, drop, All, lt→ltb, Text, text_eq,
  find_first, find_zero, Result, ok,
}
use cse124_httpserver.Connection.{Connection, Recv, bytes, would_block, read_loop, read_until}
use cse124_httpserver.Connection.Chunks.{
  chunks, whole, pop_found, read_loop_more, read_loop_pop, read_until_more,
}
use cse124_httpserver.AsyncConnection.{bufsize}
use cse124_httpserver.AsyncConnection.Reading.{
  content, read_again, take_content, try_read, read_into_buffer, notify_read, deliver,
}

-- Chunks that a read can give: none is empty, and none fills the buffer.
abbrev pub AreChunks : List Text → Type 0
AreChunks = All (λ t. (t ≢ []) × (length t < bufsize))

pub take_content-none :
    (sep buffer : Text)
    → find_first sep buffer ≡ none
    → take_content sep buffer ≡ ok (read_again, buffer)
take_content-none sep buffer e =
    unfold take_content in rw (find_zero buffer sep ∙ e, take_content) refl

pub take_content-some :
    (sep buffer : Text) (j : ℕ)
    → find_first sep buffer ≡ some j
    → take_content sep buffer ≡ ok (content (take j buffer), drop (j + length sep) buffer)
take_content-some sep buffer j e =
    unfold take_content in
    rw (find_zero buffer sep ∙ e, take_content) (rw (pop_found sep buffer j e) refl)

pub notify_read-bytes :
    (sep buffer chunk : Text)
    → chunk ≢ []
    → length chunk < bufsize
    → notify_read sep buffer (bytes chunk) ≡ (true, take_content sep (buffer ++ chunk))
unfolding notify_read try_read read_into_buffer text_eq
notify_read-bytes sep buffer [] full small = absurd (full refl)
notify_read-bytes sep buffer (d ∷ chunk) full small = rw (lt→ltb _ _ small) refl

deliver_more :
    (sep buffer chunk : Text) (more : List Recv)
    → chunk ≢ []
    → length chunk < bufsize
    → find_first sep (buffer ++ chunk) ≡ none
    → deliver sep (bytes chunk ∷ more) buffer ≡ deliver sep more (buffer ++ chunk)
unfolding deliver
deliver_more sep buffer chunk more full small e =
    rw (notify_read-bytes sep buffer chunk full small, take_content-none sep (buffer ++ chunk) e)
      refl

deliver_found :
    (sep buffer chunk : Text) (more : List Recv) (j : ℕ)
    → chunk ≢ []
    → length chunk < bufsize
    → find_first sep (buffer ++ chunk) ≡ some j
    → deliver sep (bytes chunk ∷ more) buffer
      ≡ ok (content (take j (buffer ++ chunk)), drop (j + length sep) (buffer ++ chunk))
unfolding deliver
deliver_found sep buffer chunk more j full small e =
    rw (notify_read-bytes sep buffer chunk full small, take_content-some sep (buffer ++ chunk) j e)
      refl

-- Both forms return the same text and leave the same buffer.
abbrev pub Agree : Text → Connection → List Text → Result Text × Connection → Type 0
Agree sep c cs blocking =
    (text : Text) × (buffer : Text) × (rest : List Text) × (blocking
      ≡ (ok text, record c { buffer = buffer; reads = chunks rest }))
    × (deliver sep (map (λ t. bytes t) cs) c.buffer ≡ ok (content text, buffer))

read_loop-Agree :
    (sep : Text) (cs : List Text) (c : Connection) (i : ℕ)
    → AreChunks cs
    → find_first sep c.buffer ≡ none
    → find_first sep (whole c cs) ≡ some i
    → Agree sep c cs (read_loop sep (chunks cs) c)
read_loop-Agree sep [] c i full miss e =
    let found : find_first sep c.buffer ≡ some i =
      sym (ap (find_first sep) (append-nil c.buffer)) ∙ e in
    cc
read_loop-Agree sep (chunk ∷ cs) c i ((full, small), others) miss e =
    let c' = record c { reads = chunks cs; buffer = c.buffer ++ chunk } in
    elim (Option-cases (find_first sep (c.buffer ++ chunk))) [
      | inl none_yet ↦
          let e' : find_first sep (whole c' cs) ≡ some i = rw append_assoc e in
          let (text, buffer, rest, run, same) = read_loop-Agree sep cs c' i others none_yet e' in
          (
            text,
            buffer,
            rest,
            read_loop_more sep chunk (chunks cs) c full none_yet ∙ run,
            deliver_more sep c.buffer chunk (map (λ t. bytes t) cs) full small none_yet ∙ same,
          )
      | inr (j, found) ↦ (
        take j (c.buffer ++ chunk),
        drop (j + length sep) (c.buffer ++ chunk),
        cs,
        read_loop_pop sep chunk (chunks cs) c j found
            ∙ rw (pop_found sep (c.buffer ++ chunk) j found) refl,
        deliver_found sep c.buffer chunk (map (λ t. bytes t) cs) j full small found,
      )
    ]

-- Where the separator is not yet buffered, but will arrive in chunks that do not fill a read's
-- buffer, the notifications of the pending reads hand on the text that the blocking `read_until`
-- returns, and leave the buffer that it leaves.
pub read_until-Agree :
    (sep : Text) (c : Connection) (cs : List Text) (i : ℕ)
    → c.reads ≡ chunks cs
    → AreChunks cs
    → find_first sep c.buffer ≡ none
    → find_first sep (whole c cs) ≡ some i
    → Agree sep c cs (read_until sep c)
read_until-Agree sep c cs i comes full miss e =
    let (text, buffer, rest, run, same) = read_loop-Agree sep cs c i full miss e in
    (text, buffer, rest, read_until_more sep c miss ∙ ap (λ r. read_loop sep r c) comes ∙ run, same)

-- A read that would block, with no separator in the buffer, leaves the pollable undone and asks for
-- another read: the event loop then holds two pollables for the one read.
pub notify_read-would_block :
    (sep buffer : Text)
    → find_first sep buffer ≡ none
    → notify_read sep buffer would_block ≡ (false, ok (read_again, buffer))
unfolding notify_read try_read read_into_buffer text_eq
notify_read-would_block sep buffer e = rw (append-nil buffer, take_content-none sep buffer e) refl
