-- ===== src/Tests/Launch.antt =====
-- The command line on examples.
use cse124_httpserver.Base.{
  ◌≡◌, ◌≤◌, ◌<◌, ◌↔◌, arith, ℤ, pos, negsuc, Bool, false, List, [], ◌∷◌, Text, codes, ok, refl,
  text_eq, if◌then◌else◌,
}
use cse124_httpserver.Launch.{thread_pool, started, parse_port, main}
use cse124_httpserver.Launch.Options.{Accepted, parse_port-ok_iff, main-Accepted_iff}
use cse124_httpserver.Launch.Threadless.{main-serves_none}
use cse124_httpserver.WorkQueue.Workers.{Workers, new_threads, thread_loop, fresh, starts, queues}
use cse124_httpserver.Tests.Connection.{answers_not_found}
use cse124_httpserver.Tests.Connection.Threads.{asks_namelessly}

-- A `strtol` that reads every text as 8080, and sets no `errno`.
abbrev reads_8080 : Text → ℤ
reads_8080 s = pos 8080

abbrev never_fails : Text → Bool
never_fails s = false

parse_port-ok_iff_example : (parse_port reads_8080 never_fails (codes "8080") ≡ ok 8080) ↔ (
    (never_fails (codes "8080") ≡ false)
    × (reads_8080 (codes "8080") ≡ pos 8080)
    × (0 < 8080)
    × (8080 ≤ 65535))
parse_port-ok_iff_example = parse_port-ok_iff reads_8080 never_fails (codes "8080") 8080

abbrev command : List Text
command = codes "httpd" ∷ codes "8080" ∷ codes "www" ∷ codes "pool" ∷ []

main-Accepted_iff_example :
    (main reads_8080 never_fails command ≡ ok (started 8080 (codes "www") (thread_pool (pos 4))))
    ↔ Accepted reads_8080 never_fails command (started 8080 (codes "www") (thread_pool (pos 4)))
main-Accepted_iff_example =
    main-Accepted_iff reads_8080 never_fails command 8080 (codes "www") (thread_pool (pos 4))

-- The same, but for the size of a pool, which is -5.
abbrev reads_sizes : Text → ℤ
reads_sizes s = if text_eq s (codes "-5") then negsuc 4 else pos 8080

abbrev one_pushed : Workers
one_pushed = record (fresh 0) { work_queue = asks_namelessly ∷ [] }

main-serves_none_example :
    (main reads_sizes never_fails
        (codes "httpd" ∷ codes "8080" ∷ codes "www" ∷ codes "pool" ∷ codes "-5" ∷ [])
      ≡ ok (started 8080 (codes "www") (thread_pool (negsuc 4))))
    × (thread_loop 3 0 (negsuc 4) ≡ ok (new_threads 0))
    × (one_pushed.work_queue ≡ asks_namelessly ∷ [])
    × (one_pushed.handled ≡ [])
unfolding text_eq
main-serves_none_example =
    main-serves_none answers_not_found reads_sizes never_fails (codes "httpd") (codes "8080")
      (codes "www") (codes "-5") 8080 4 3 (asks_namelessly ∷ []) one_pushed refl refl (omega arith)
      (omega arith) refl (omega arith) (omega arith) (omega arith)
      (queues (fresh 0) asks_namelessly refl starts)
