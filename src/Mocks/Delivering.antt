-- ===== src/Mocks/Delivering.antt =====
-- A MockConnection as the connection that the server reads from.
use cse124_httpserver.Base.{
  ℕ, zero, suc, ◌<◌, ◌≤◌, ◌≡◌, ◌≢◌, refl, ap, ◌∙◌, List, [], ◌∷◌, ◌++◌, take-append-drop, length,
  length-take, length-drop, take, drop, lt→ltb, Lacks, All, arith, Text, Result, ok, throw,
  connection_closed,
}
use cse124_httpserver.Connection.{c_string}
use cse124_httpserver.Connection.Chunks.{chunks, total}
use cse124_httpserver.Mocks.{MockConnection, mock_buffer_size, read_text, read_mock}

-- The outcomes of so many calls of `read`.
pub reads_of : ℕ → MockConnection → List (Result Text)
unfolding read_mock
reads_of zero conn = []
reads_of (suc n) conn = (read_mock conn).0 ∷ reads_of n (read_mock conn).1

c_string-Lacks : (s : Text) → Lacks 0 s → c_string s ≡ s
unfolding c_string
c_string-Lacks [] h = refl
c_string-Lacks (c ∷ s) (here, later) = ground (arith, c_string-Lacks s later)

Lacks-take : (n : ℕ) (s : Text) → Lacks 0 s → Lacks 0 (take n s)
Lacks-take zero s h = tt
Lacks-take (suc n) [] h = tt
Lacks-take (suc n) (c ∷ s) (here, later) = (here, Lacks-take n s later)

Lacks-drop : (n : ℕ) (s : Text) → Lacks 0 s → Lacks 0 (drop n s)
Lacks-drop zero s h = h
Lacks-drop (suc n) [] h = tt
Lacks-drop (suc n) (c ∷ s) (here, later) = Lacks-drop n s later

read_text-Lacks : (s : Text) → s ≢ [] → length s < mock_buffer_size → Lacks 0 s → read_text s ≡ ok s
read_text-Lacks [] full small h = absurd (full refl)
read_text-Lacks (c ∷ s) full small h = rw (lt→ltb _ _ small, c_string-Lacks (c ∷ s) h) refl

take_nil : (n : ℕ) → take {A = ℕ} n [] ≡ []
take_nil zero = refl
take_nil (suc n) = refl

-- The reads give the payload in non-empty chunks, and then the connection is closed.
abbrev pub Delivered : MockConnection → Type 0
Delivered conn =
    (cs : List Text) × (reads_of (suc (length cs)) conn ≡ chunks cs ++ throw connection_closed ∷ [])
    × All (λ t. t ≢ []) cs
    × (total cs ≡ conn.read_payload)

deliver_mock :
    (n : ℕ) (s : Text) (conn : MockConnection)
    → length s ≤ n
    → 0 < conn.read_size
    → conn.read_size < mock_buffer_size
    → Lacks 0 s
    → Delivered (record conn { read_payload = s })
unfolding reads_of read_mock
deliver_mock n [] conn h some_bytes small free = ([], rw (take_nil conn.read_size) refl, tt, refl)
deliver_mock zero (c ∷ s) conn h some_bytes small free = absurd (omega arith)
deliver_mock (suc n) (c ∷ s) conn h some_bytes small free =
    let chunk = take conn.read_size (c ∷ s) in
    let rest = drop conn.read_size (c ∷ s) in
    let size : length chunk ≡ _ = length-take conn.read_size (c ∷ s) in
    let left = length-drop conn.read_size (c ∷ s) in
    let full : chunk ≢ [] = λ e. absurd (omega (arith, size, ap length e)) in
    let (cs, run, others, whole) =
      deliver_mock n rest conn (omega (arith, left)) some_bytes small
        (Lacks-drop conn.read_size (c ∷ s) free) in
    (
      chunk ∷ cs,
      rw (read_text-Lacks chunk full (omega (arith, size)) (Lacks-take conn.read_size (c ∷ s) free))
          (ap (◌∷◌ (ok chunk)) run),
      (full, others),
      ap (◌++◌ chunk) whole ∙ take-append-drop conn.read_size (c ∷ s),
    )

-- A MockConnection whose payload has no zero byte, and whose read size is positive and below the
-- size of its buffer, gives its payload in non-empty chunks, in order, and then throws
-- ConnectionClosed.
pub reads_of-Delivered :
    (conn : MockConnection)
    → 0 < conn.read_size
    → conn.read_size < mock_buffer_size
    → Lacks 0 conn.read_payload
    → Delivered conn
reads_of-Delivered conn some_bytes small free =
    deliver_mock (length conn.read_payload) conn.read_payload conn (omega arith) some_bytes small
      free
