-- ===== src/Launch.antt =====
-- main.cpp, and the choice of a server in httpd.cpp. `strtol` is a parameter: the value it returns,
-- and whether it leaves EINVAL or ERANGE in `errno`.
pub mod Options
pub mod Site
pub mod Threadless
use cse124_httpserver.Base.{
  ℕ, suc, ◌-◌, ◌%◌, ◌^◌, ℤ, pos, negsuc, Bool, true, false, not, ◌||◌, List, [], ◌∷◌, length, ltb,
  leb, ◌==◌, if◌then◌else◌, Text, codes, text_eq, Exception, Result, ok, throw, undefined, no_fuel,
  ◌>>=◌, ◌>>◌, check, invalid_argument,
}

-- A `ThreadModel` is an `int`.
abbrev pub async_event_loop : ℤ
async_event_loop = negsuc 1

abbrev pub no_threads : ℤ
no_threads = negsuc 0

abbrev pub no_pool : ℤ
no_pool = pos 0

abbrev pub int_of_bits : ℕ → ℤ
int_of_bits b = if ltb b (2 ^ 31) then pos b else negsuc (2 ^ 32 - 1 - b)

-- The conversion of a `long` to an `int`, which keeps the low 32 bits.
unfoldable pub to_int : ℤ → ℤ
to_int (pos n) = int_of_bits (n % 2 ^ 32)
to_int (negsuc n) = int_of_bits (2 ^ 32 - 1 - n % 2 ^ 32)

-- The servers that `start_httpd` and `serve_sync` make.
pub data Server : Type 0 where
  async_server blocking thread_spawning : Server
  thread_pool : ℤ → Server

unfoldable pub server_of : ℤ → Server
server_of (negsuc n) =
    if n == 1 then async_server else if n == 0 then blocking else thread_pool (negsuc n)
server_of (pos n) = if n == 0 then thread_spawning else thread_pool (pos n)

-- What `main` does: it starts a server, or prints the usage and returns 1.
pub data Launched : Type 0 where
  started : ℕ → Text → Server → Launched
  usage : Launched

-- `catch (invalid_argument&)`
abbrev pub catch_invalid_argument : Result Launched → Result Launched
catch_invalid_argument (throw invalid_argument) = ok usage
catch_invalid_argument r = r

module _ (strtol : Text → ℤ) (strtol_fails : Text → Bool) where
  abbrev pub in_port_range : ℤ → Result ℕ
  in_port_range (negsuc n) = throw invalid_argument
  in_port_range (pos n) = if n == 0 || ltb 65535 n then throw invalid_argument else ok n

  unfoldable pub parse_port : Text → Result ℕ
  parse_port port_str = do
    check (not (strtol_fails port_str)) invalid_argument
    in_port_range (strtol port_str)

  -- The size of a pool, from what follows the word.
  abbrev pub pool_size : List Text → ℤ
  pool_size [] = pos 4
  pool_size (size ∷ args) = to_int (strtol size)

  unfoldable pub parse_thread_model : List Text → Result ℤ
  unfolding to_int text_eq
  parse_thread_model [] = ok no_pool
  parse_thread_model (thread_model ∷ args) =
      if text_eq thread_model (codes "nothread")
      then ok no_threads
      else if text_eq thread_model (codes "nopool")
      then ok no_pool
      else if text_eq thread_model (codes "async")
      then ok async_event_loop
      else if text_eq thread_model (codes "pool")
      then ok (pool_size args)
      else throw invalid_argument

  abbrev pub run_main : List Text → Result Launched
  run_main (argv0 ∷ port_str ∷ doc_root ∷ args) = do
    port ← parse_port port_str
    thread_model ← parse_thread_model args
    ok (started port doc_root (server_of thread_model))
  run_main argv = ok usage

  unfoldable pub main : List Text → Result Launched
  unfolding parse_port parse_thread_model server_of
  main argv =
      if ltb (length argv) 3 || ltb 5 (length argv)
      then ok usage
      else catch_invalid_argument (run_main argv)
