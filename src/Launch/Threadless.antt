-- ===== src/Launch/Threadless.antt =====
-- The pool that a negative size on the command line gives.
use cse124_httpserver.Base.{
  ℕ, zero, suc, ◌^◌, ◌≤◌, ◌<◌, ◌≡◌, refl, ap, ℤ, pos, negsuc, Bool, false, List, [], ◌∷◌, ◌++◌,
  length, length-append, arith, Text, codes, Result, ok,
}
use cse124_httpserver.Http.{HttpRequest, HttpResponse}
use cse124_httpserver.Connection.{Connection}
use cse124_httpserver.Launch.{thread_pool, server_of, to_int, started, main}
use cse124_httpserver.Launch.Options.{accepted, pool_of, to_int-negsuc, main-Accepted_iff}
use cse124_httpserver.WorkQueue.Workers.{
  Worker, Workers, new_threads, thread_loop, Turn, dozes, pops, goes_on, loops, Pooled, starts,
  queues, queues_waking, stirs, turns,
}

some_worker : (before after : List Worker) (w : Worker) → before ++ w ∷ after ≡ [] → ⊥
some_worker before after w e = omega (arith, length-append before (w ∷ after), ap length e)

module _ (handler : HttpRequest → Result HttpResponse) where
  no_turn : (s s' : Workers) → Turn handler s s' → s.thread_pool ≡ [] → ⊥
  no_turn _ _ (dozes before after s) none = some_worker before after _ none
  no_turn _ _ (pops before after conn rest s) none = some_worker before after _ none
  no_turn _ _ (goes_on before after conn now s) none = some_worker before after _ none
  no_turn _ _ (loops before after conn outcome s) none = some_worker before after _ none

  -- A pool without a thread only queues what is pushed.
  Pooled-threadless :
      (pushed : List Connection) (s : Workers)
      → Pooled handler 0 pushed s
      → (s.thread_pool ≡ []) × (s.work_queue ≡ pushed) × (s.handled ≡ [])
  Pooled-threadless _ _ starts = (refl, refl, refl)
  Pooled-threadless _ _ (queues s conn none_sleeps p) =
      let (none, queued, unhandled) = Pooled-threadless _ s p in
      (none, ap (λ t. t ++ conn ∷ []) queued, unhandled)
  Pooled-threadless _ _ (queues_waking before after s conn p) =
      absurd (some_worker before after _ (Pooled-threadless _ _ p).0)
  Pooled-threadless _ _ (stirs before after s p) =
      absurd (some_worker before after _ (Pooled-threadless _ _ p).0)
  Pooled-threadless _ _ (turns {s = s} {s' = s'} turn p) =
      absurd (no_turn s s' turn (Pooled-threadless _ s p).0)

  -- Where `strtol` reads the port as a number from 1 to 65535, without an error, and the size of a
  -- pool as one below -2 in the range of an `int`, here -(n + 1), `main` starts a server with a pool of
  -- that size; the loop that makes its threads ends after its first test, without any; and in every
  -- state of such a pool, each connection that was pushed is still queued, and none was handled.
  pub main-serves_none :
      (strtol : Text → ℤ) (strtol_fails : Text → Bool) (argv0 port_str doc_root size : Text)
      (port n fuel : ℕ) (pushed : List Connection) (s : Workers)
      → strtol_fails port_str ≡ false
      → strtol port_str ≡ pos port
      → 0 < port
      → port ≤ 65535
      → strtol size ≡ negsuc n
      → n < 2 ^ 31
      → 1 < n
      → 0 < fuel
      → Pooled handler 0 pushed s
      → (main strtol strtol_fails (argv0 ∷ port_str ∷ doc_root ∷ codes "pool" ∷ size ∷ [])
          ≡ ok (started port doc_root (thread_pool (negsuc n))))
        × (thread_loop fuel 0 (negsuc n) ≡ ok (new_threads 0))
        × (s.work_queue ≡ pushed)
        × (s.handled ≡ [])
  main-serves_none strtol strtol_fails argv0 port_str doc_root size port n zero pushed s fine value
        low high sized int_range small some_round p =
      absurd (omega arith)
  main-serves_none strtol strtol_fails argv0 port_str doc_root size port n (suc f) pushed s fine
        value low high sized int_range small some_round p =
      let (none, queued, unhandled) = Pooled-threadless pushed s p in
      let server : server_of (to_int (strtol size)) ≡ thread_pool (negsuc n) =
        unfold server_of in rw (sized, to_int-negsuc n int_range) (ground arith) in
      let short : length (codes "pool" ∷ size ∷ []) ≤ 2 = omega arith in
      let chosen = pool_of size [] in
      (
        (main-Accepted_iff strtol strtol_fails _ port doc_root (thread_pool (negsuc n))).1 (
            rw (← server) (
              accepted argv0 port_str doc_root (codes "pool" ∷ size ∷ []) port _ short fine value
                low high chosen)),
        unfold thread_loop in refl,
        queued,
        unhandled,
      )
