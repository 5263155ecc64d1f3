-- ===== src/Connection/Lifetime.antt =====
-- The life of a connection in the blocking servers: an HttpConnection, which holds a BufferedConnection,
-- is made around a socket, is moved to where it is handled (into a thread, or into the work queue), and
-- all of these objects are destroyed, in any order. Only the object that is not moved from holds the
-- pointer, so that with its destruction the SocketConnection is destroyed, too.
use cse124_httpserver.Base.{
  ℕ, ◌+◌, ◌≡◌, refl, ap, arith, true, false, Option, none, some, List, [], ◌∷◌, ◌++◌, length,
  length-append, All, All-append, All-split,
}
use cse124_httpserver.Connection.Closing.{Socket, close, buffered_close, move_connection}

abbrev pub opened : Socket
opened = record { has_descriptor = true; closes = 0 }

abbrev pub closed : Socket
closed = record { has_descriptor = false; closes = 1 }

-- `SocketConnection::~SocketConnection`, when the last pointer is gone: the socket that is left.
abbrev released : Option Socket → List Socket
released none = []
released (some s) = close s ∷ []

-- `BufferedConnection::~BufferedConnection`, and then the pointer's.
unfoldable pub destroyed : Option Socket → List Socket
unfolding close buffered_close
destroyed conn = released (buffered_close conn)

-- The objects, and the sockets whose SocketConnection is destroyed.
pub data Life : List (Option Socket) → List Socket → Type 0 where
  wraps : Life (some opened ∷ []) []
  moves :
      (before after : List (Option Socket)) (conn : Option Socket) {gone : List Socket}
      → Life (before ++ conn ∷ after) gone
      → Life (before ++ (move_connection conn).1 ∷ (after ++ (move_connection conn).0 ∷ [])) gone
  destroys :
      (before after : List (Option Socket)) (conn : Option Socket) {gone : List Socket}
      → Life (before ++ conn ∷ after) gone
      → Life (before ++ after) (destroyed conn ++ gone)

abbrev held : Option Socket → List Socket
held none = []
held (some s) = s ∷ []

abbrev holders : List (Option Socket) → ℕ
holders [] = 0
holders (conn ∷ conns) = length (held conn) + holders conns

-- A socket that is held is open.
abbrev IsOpen : Option Socket → Type 0
IsOpen none = Unit
IsOpen (some s) = s ≡ opened

abbrev IsClosed : Socket → Type 0
IsClosed s = s ≡ closed

-- Either one object holds the open socket, or it is closed.
abbrev One : List (Option Socket) → List Socket → Type 0
One conns gone = All IsOpen conns × All IsClosed gone × (holders conns + length gone ≡ 1)

holders-append : (xs ys : List (Option Socket)) → holders (xs ++ ys) ≡ holders xs + holders ys
holders-append [] ys = omega arith
holders-append (conn ∷ xs) ys = omega (arith, holders-append xs ys)

destroyed-IsClosed : (conn : Option Socket) → IsOpen conn → All IsClosed (destroyed conn)
unfolding destroyed
destroyed-IsClosed none h = tt
destroyed-IsClosed (some s) h = rw h (refl, tt)

length-destroyed :
    (conn : Option Socket) → IsOpen conn → length (destroyed conn) ≡ length (held conn)
unfolding destroyed
length-destroyed none h = refl
length-destroyed (some s) h = rw h refl

Life-One : (conns : List (Option Socket)) (gone : List Socket) → Life conns gone → One conns gone
Life-One _ _ wraps = ((refl, tt), tt, refl)
Life-One _ gone (moves before after conn life) =
    let (open_all, closed_all, count) = Life-One _ gone life in
    let (fore, (here, later)) = All-split IsOpen before (conn ∷ after) open_all in
    (
      All-append IsOpen before _ fore (tt, All-append IsOpen after (conn ∷ []) later (here, tt)),
      closed_all,
      omega (
        arith,
        holders-append before (conn ∷ after),
        holders-append before (none ∷ (after ++ conn ∷ [])),
        holders-append after (conn ∷ []),
      ),
    )
Life-One _ _ (destroys before after conn {gone = gone} life) =
    let (open_all, closed_all, count) = Life-One _ gone life in
    let (fore, (here, later)) = All-split IsOpen before (conn ∷ after) open_all in
    (
      All-append IsOpen before after fore later,
      All-append IsClosed (destroyed conn) gone (destroyed-IsClosed conn here) closed_all,
      omega (
        arith,
        holders-append before (conn ∷ after),
        holders-append before after,
        length-append (destroyed conn) gone,
        length-destroyed conn here,
      ),
    )

only-IsClosed : (gone : List Socket) → All IsClosed gone → length gone ≡ 1 → gone ≡ closed ∷ []
only-IsClosed [] h e = absurd (omega arith)
only-IsClosed (s ∷ []) (here, later) e = ap (λ t. t ∷ []) here
only-IsClosed (s ∷ t ∷ gone) h e = absurd (omega arith)

-- However often a connection is moved, and in whatever order the objects are destroyed: once all are,
-- the socket is closed, and `::close` was called for it once.
pub Life-closed : (gone : List Socket) → Life [] gone → gone ≡ closed ∷ []
Life-closed gone life =
    let (_, closed_all, count) = Life-One [] gone life in
    only-IsClosed gone closed_all (omega arith)
