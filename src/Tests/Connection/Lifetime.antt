-- ===== src/Tests/Connection/Lifetime.antt =====
-- A connection that is moved into a thread.
use cse124_httpserver.Base.{◌≡◌, none, some, [], ◌∷◌}
use cse124_httpserver.Connection.Closing.{close, buffered_close}
use cse124_httpserver.Connection.Lifetime.{
  opened, closed, destroyed, Life, wraps, moves, destroys, Life-closed,
}

-- The object that was moved from is destroyed first.
moved : Life [] (closed ∷ [])
unfolding destroyed close buffered_close
moved =
    destroys [] [] (some opened)
      (destroys [] (some opened ∷ []) none (moves [] [] (some opened) wraps))

Life-closed_example : closed ∷ [] ≡ closed ∷ []
Life-closed_example = Life-closed (closed ∷ []) moved
