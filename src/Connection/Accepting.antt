-- ===== src/Connection/Accepting.antt =====
-- `HttpServer::serve` of server.cpp, and `handle_work_queue` of connection_handlers.cpp. What the
-- handler of a connection changes is a state of any type.
use cse124_httpserver.Base.{
  List, [], ◌∷◌, ◌++◌, ◌≡◌, refl, map, listener_error, Result, ok, throw, undefined, no_fuel,
}

-- How a call of `accept` ends.
pub data Accept {ℓ} (C : Type ℓ) : Type ℓ where
  accepted : C → Accept C
  accept_fails : Accept C

-- A ListenerError ends `serve`; what else a handler throws leaves it.
abbrev pub after_handling {κ} :
    {S : Type κ} → Result (Unit {0}) × S → (S → Result (Unit {0}) × S) → Result (Unit {0}) × S
after_handling (ok u, s) more = more s
after_handling (throw listener_error, s) more = (ok tt, s)
after_handling (throw e, s) more = (throw e, s)
after_handling (undefined, s) more = (undefined, s)
after_handling (no_fuel, s) more = (no_fuel, s)

module _ {ℓ κ} {C : Type ℓ} {S : Type κ} (handle : C → S → Result (Unit {0}) × S) where
  -- The loop of `serve`, for the calls of `accept` that are listed.
  unfoldable pub serve : List (Accept C) → S → Result (Unit {0}) × S
  serve [] s = (no_fuel, s)
  serve (accept_fails ∷ more) s = (ok tt, s)
  serve (accepted c ∷ more) s = after_handling (handle c s) (λ s'. serve more s')

  -- The loop of `handle_work_queue`, for the connections it pops: `catch (...)` takes every exception.
  unfoldable work : List C → S → S
  work [] s = s
  work (c ∷ cs) s = work cs (handle c s).1

  -- A worker goes on after every connection, whatever its handling throws.
  work-append : (cs ds : List C) (s : S) → work (cs ++ ds) s ≡ work ds (work cs s)
  unfolding work
  work-append [] ds s = refl
  work-append (c ∷ cs) ds s = work-append cs ds (handle c s).1

abbrev pub accepts {ℓ} : {C : Type ℓ} → List C → List (Accept C)
accepts cs = map (λ c. accepted c) cs

-- Where handling throws nothing, as for the threads and the pool, `serve` handles all connections
-- that are accepted, in order, until `accept` fails.
serve-accepts {ℓ κ} :
    {C : Type ℓ} {S : Type κ} (next : C → S → S) (cs : List C) (s : S)
    → serve (λ c s. (ok tt, next c s)) (accepts cs ++ accept_fails ∷ []) s
      ≡ (ok tt, work (λ c s. (ok tt, next c s)) cs s)
unfolding serve work
serve-accepts next [] s = refl
serve-accepts next (c ∷ cs) s = serve-accepts next cs (next c s)
