-- ===== src/AsyncFiles/Reading.antt =====
-- A file that is read to its end: the callback gets the whole of it.
use cse124_httpserver.Base.{
  ◌<◌, ◌≡◌, ◌≢◌, refl, ◌∙◌, true, false, Option, none, some, List, [], ◌∷◌, ◌++◌, append_assoc,
  append-nil, length, lt→ltb, All, Text, Result, ok, ◌>>=◌,
}
use cse124_httpserver.AsyncFiles.{
  file_bufsize, FileRead, got, read_blocks, read_fails, FileReadPollable, notify_file,
}

-- The notifications of one read, until the callback gets the text.
pub deliver_file : List FileRead → FileReadPollable → Result (FileReadPollable × Option Text)
unfolding notify_file
deliver_file [] p = ok (p, none)
deliver_file (r ∷ reads) p = do
  (p', text) ← notify_file r p
  let later = deliver_file reads p' in elim text [ none ↦ later | some s ↦ ok (p', some s) ]

-- Reads that bring some of the file, or would block.
abbrev pub IsPart : FileRead → Type 0
IsPart (got s) = (s ≢ []) × (length s < file_bufsize)
IsPart read_blocks = Unit
IsPart read_fails = ⊥

-- What they bring together.
abbrev pub gathered : List FileRead → Text
gathered [] = []
gathered (got s ∷ reads) = s ++ gathered reads
gathered (read_blocks ∷ reads) = gathered reads
gathered (read_fails ∷ reads) = gathered reads

notify_file-got :
    (s : Text) (p : FileReadPollable)
    → s ≢ []
    → length s < file_bufsize
    → notify_file (got s) p ≡ ok (record p { buffer = p.buffer ++ s; done = false }, none)
unfolding notify_file
notify_file-got [] p full small = absurd (full refl)
notify_file-got (c ∷ s) p full small = rw (lt→ltb _ _ small) refl

-- However a file comes in reads that do not fill the buffer, with some that would block among them,
-- the callback is called at its end, with what was buffered before and all that was read, in order.
pub deliver_file-gathered :
    (reads : List FileRead) (p : FileReadPollable)
    → All IsPart reads
    → deliver_file (reads ++ got [] ∷ []) p
      ≡ ok (
        record p { buffer = p.buffer ++ gathered reads; done = true },
        some (p.buffer ++ gathered reads),
      )
unfolding deliver_file notify_file
deliver_file-gathered [] p parts = rw (append-nil p.buffer) refl
deliver_file-gathered (got s ∷ reads) p ((full, small), parts) =
    rw (notify_file-got s p full small) (
      deliver_file-gathered reads (record p { buffer = p.buffer ++ s; done = false }) parts
      ∙ rw (append_assoc p.buffer s (gathered reads)) refl)
deliver_file-gathered (read_blocks ∷ reads) p (_, parts) =
    deliver_file-gathered reads (record p { done = false }) parts
deliver_file-gathered (read_fails ∷ reads) p (bad, parts) = absurd bad
