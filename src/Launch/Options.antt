-- ===== src/Launch/Options.antt =====
-- Which command lines start a server, and which server.
use cse124_httpserver.Base.{
  ℕ, suc, ◌-◌, ◌%◌, ◌^◌, ◌≤◌, ◌<◌, ◌≡◌, ◌↔◌, ◌⊎◌, inl, inr, refl, subst, ◌||◌, ℤ, pos, negsuc, Bool,
  false, List, [], ◌∷◌, length, arith, Text, codes, text_eq, text_eq_iff, Result, undefined,
  no_fuel, ok, throw, invalid_argument, ltb, >>=-eq-ok,
}
use cse124_httpserver.Launch.{
  Server, server_of, thread_pool, thread_spawning, blocking, async_server, to_int, Launched,
  started, parse_port, parse_thread_model, main, async_event_loop, no_threads, no_pool, run_main,
  catch_invalid_argument, pool_size, in_port_range,
}

in_range_iff :
    (strtol : Text → ℤ) (strtol_fails : Text → Bool) (z : ℤ) (p : ℕ)
    → (in_port_range strtol strtol_fails z ≡ ok p) ↔ ((z ≡ pos p) × (0 < p) × (p ≤ 65535))
in_range_iff strtol strtol_fails (negsuc n) p = (λ e. cc, λ e. cc)
in_range_iff strtol strtol_fails (pos n) p = ground arith

module _ (strtol : Text → ℤ) (strtol_fails : Text → Bool) where
  -- `parse_port` returns exactly the numbers from 1 to 65535 that `strtol` reads without an error.
  pub parse_port-ok_iff :
      (s : Text) (p : ℕ)
      → (parse_port strtol strtol_fails s ≡ ok p)
        ↔ ((strtol_fails s ≡ false) × (strtol s ≡ pos p) × (0 < p) × (p ≤ 65535))
  unfolding parse_port
  parse_port-ok_iff s p = ground (arith, in_range_iff strtol strtol_fails (strtol s) p)

  -- The server that the arguments after the document root ask for.
  pub data Chooses : List Text → Server → Type 0 where
    default : Chooses [] thread_spawning
    nothread : (args : List Text) → Chooses (codes "nothread" ∷ args) blocking
    nopool : (args : List Text) → Chooses (codes "nopool" ∷ args) thread_spawning
    async : (args : List Text) → Chooses (codes "async" ∷ args) async_server
    pool : Chooses (codes "pool" ∷ []) (thread_pool (pos 4))
    pool_of :
        (size : Text) (args : List Text)
        → Chooses (codes "pool" ∷ size ∷ args) (server_of (to_int (strtol size)))

  parse_thread_model-words :
      (word : Text) (args : List Text) (m : ℤ)
      → parse_thread_model strtol strtol_fails (word ∷ args) ≡ ok m
      → ((word ≡ codes "nothread") × (m ≡ no_threads))
        ⊎ (((word ≡ codes "nopool") × (m ≡ no_pool))
            ⊎ (((word ≡ codes "async") × (m ≡ async_event_loop))
                ⊎ ((word ≡ codes "pool") × (m ≡ pool_size strtol strtol_fails args))))
  unfolding parse_thread_model
  parse_thread_model-words word args m e = ground (
    arith,
    text_eq_iff word (codes "nothread"),
    text_eq_iff word (codes "nopool"),
    text_eq_iff word (codes "async"),
    text_eq_iff word (codes "pool"),
  )

  pool-Chooses :
      (args : List Text)
      → Chooses (codes "pool" ∷ args) (server_of (pool_size strtol strtol_fails args))
  unfolding server_of
  pool-Chooses [] = pool
  pool-Chooses (size ∷ args) = pool_of size args

  parse_thread_model-Chooses :
      (args : List Text) (m : ℤ)
      → parse_thread_model strtol strtol_fails args ≡ ok m
      → Chooses args (server_of m)
  unfolding parse_thread_model server_of
  parse_thread_model-Chooses [] m e = let k : m ≡ no_pool = cc in rw k default
  parse_thread_model-Chooses (word ∷ args) m e = elim (parse_thread_model-words word args m e) [
    | inl (w, k) ↦ rw (w, k) (nothread args)
    | inr (inl (w, k)) ↦ rw (w, k) (nopool args)
    | inr (inr (inl (w, k))) ↦ rw (w, k) (async args)
    | inr (inr (inr (w, k))) ↦ rw (w, k) (pool-Chooses args)
  ]

  Chooses-parse_thread_model :
      {args : List Text} {server : Server}
      → Chooses args server
      → (m : ℤ) × (parse_thread_model strtol strtol_fails args ≡ ok m) × (server_of m ≡ server)
  unfolding parse_thread_model server_of text_eq
  Chooses-parse_thread_model default = (_, refl, refl)
  Chooses-parse_thread_model (nothread args) = (_, refl, refl)
  Chooses-parse_thread_model (nopool args) = (_, refl, refl)
  Chooses-parse_thread_model (async args) = (_, refl, refl)
  Chooses-parse_thread_model pool = (_, refl, refl)
  Chooses-parse_thread_model (pool_of size args) = (_, refl, refl)

  -- A command line that `main` accepts, and what it starts.
  pub data Accepted : List Text → Launched → Type 0 where
    accepted :
        (argv0 port_str doc_root : Text) (args : List Text) (port : ℕ) (server : Server)
        → length args ≤ 2
        → strtol_fails port_str ≡ false
        → strtol port_str ≡ pos port
        → 0 < port
        → port ≤ 65535
        → Chooses args server
        → Accepted (argv0 ∷ port_str ∷ doc_root ∷ args) (started port doc_root server)

  catch-started :
      (r : Result Launched) (port : ℕ) (doc_root : Text) (server : Server)
      → catch_invalid_argument r ≡ ok (started port doc_root server)
      → r ≡ ok (started port doc_root server)
  catch-started (ok l) port doc_root server e = e
  catch-started (throw invalid_argument) port doc_root server e = cc
  catch-started (throw _) port doc_root server e = cc
  catch-started undefined port doc_root server e = cc
  catch-started no_fuel port doc_root server e = cc

  main-run :
      (argv : List Text) (port : ℕ) (doc_root : Text) (server : Server)
      → main strtol strtol_fails argv ≡ ok (started port doc_root server)
      → (length argv ≤ 5) × (run_main strtol strtol_fails argv ≡ ok (started port doc_root server))
  unfolding main
  main-run argv port doc_root server e =
      ground (arith, catch-started (run_main strtol strtol_fails argv) port doc_root server)

  run_main-Accepted :
      (argv : List Text) (port : ℕ) (doc_root : Text) (server : Server)
      → length argv ≤ 5
      → run_main strtol strtol_fails argv ≡ ok (started port doc_root server)
      → Accepted argv (started port doc_root server)
  run_main-Accepted (argv0 ∷ port_str ∷ root ∷ args) port doc_root server h e =
      let (p, read, e1) = >>=-eq-ok (parse_port strtol strtol_fails port_str) _ e in
      let (m, chosen, e2) = >>=-eq-ok (parse_thread_model strtol strtol_fails args) _ e1 in
      let (fine, value, low, high) = (parse_port-ok_iff port_str p).0 read in
      let choice = parse_thread_model-Chooses args m chosen in
      let same : started p root (server_of m) ≡ started port doc_root server = cc in
      subst (Accepted (argv0 ∷ port_str ∷ root ∷ args)) same
        (accepted argv0 port_str root args p (server_of m) (omega arith) fine value low high choice)
  run_main-Accepted [] port doc_root server h e = cc
  run_main-Accepted (argv0 ∷ []) port doc_root server h e = cc
  run_main-Accepted (argv0 ∷ port_str ∷ []) port doc_root server h e = cc

  Accepted-main :
      {argv : List Text} {l : Launched} → Accepted argv l → main strtol strtol_fails argv ≡ ok l
  unfolding main
  Accepted-main (accepted argv0 port_str doc_root args port server h fine value low high choice) =
      let (m, chosen, same) = Chooses-parse_thread_model choice in
      let read = (parse_port-ok_iff port_str port).1 (fine, value, low, high) in
      let short : (ltb (suc (suc (suc (length args)))) 3 || ltb 5 (suc (suc (suc (length args)))))
          ≡ false =
        ground arith in
      rw (short, read, chosen, same) refl

  -- `main` starts a server exactly on the command lines that have two to four arguments, of which
  -- the first is the number of a port that `strtol` reads without an error, and the third and
  -- fourth, if there, choose the server.
  pub main-Accepted_iff :
      (argv : List Text) (port : ℕ) (doc_root : Text) (server : Server)
      → (main strtol strtol_fails argv ≡ ok (started port doc_root server))
        ↔ Accepted argv (started port doc_root server)
  main-Accepted_iff argv port doc_root server = (
    λ e.
        let (h, run) = main-run argv port doc_root server e in
        run_main-Accepted argv port doc_root server h run,
    Accepted-main,
  )

mod_small : (n : ℕ) → n < 2 ^ 32 → n % 2 ^ 32 ≡ n
mod_small n h = omega arith

to_int-pos : (n : ℕ) → n < 2 ^ 31 → to_int (pos n) ≡ pos n
unfolding to_int
to_int-pos n h = rw (mod_small n (omega arith)) (ground arith)

pub to_int-negsuc : (n : ℕ) → n < 2 ^ 31 → to_int (negsuc n) ≡ negsuc n
unfolding to_int
to_int-negsuc n h =
    let back : 2 ^ 32 - 1 - (2 ^ 32 - 1 - n) ≡ n = omega arith in
    let big : ltb (2 ^ 32 - 1 - n) (2 ^ 31) ≡ false = ground arith in
    rw (mod_small n (omega arith), big, back) refl
