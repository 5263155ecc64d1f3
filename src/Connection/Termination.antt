-- ===== src/Connection/Termination.antt =====
-- The loop of `handle_connection`: every round consumes some of what the peer sends.
use cse124_httpserver.Base.{
  ℕ, zero, suc, ◌+◌, ◌≤◌, ◌<◌, ◌≡◌, ◌≢◌, inl, inr, refl, ◌∙◌, true, false, Bool-cases, none, some,
  Option-cases, List, [], ◌∷◌, ◌++◌, length, length-append, length-drop, All, arith, Result, ok,
  throw, undefined, no_fuel, http_request_parse_error, connection_closed, Text, codes, text_eq,
  find_first, find_first-le, find_zero, text_eq_iff,
}
use cse124_httpserver.Util.{pop_n_sstream}
use cse124_httpserver.Util.Suffix.{pop_n_sstream-eq}
use cse124_httpserver.Http.{
  HttpRequest, HttpResponse, parse_request_frame, has_header, bad_request_response,
}
use cse124_httpserver.Http.Termination.{parse_request_frame-ends}
use cse124_httpserver.Connection.{
  Connection, Sent, sent_whole, sent_short, sent_failed, serve_once, popped, read_loop, read_until,
  write, send, read_request, write_response, answer, serve_loop, handle_connection, catch_all,
  crlfcrlf, M, resume,
}
use cse124_httpserver.Connection.Chunks.{pop_found, read_loop_more, read_loop_pop}

-- The length of a chunk and one more for the read that gives it.
abbrev pub cost : List (Result Text) → ℕ
cost [] = 0
cost (ok chunk ∷ reads) = suc (length chunk + cost reads)
cost (throw _ ∷ reads) = suc (cost reads)
cost (undefined ∷ reads) = suc (cost reads)
cost (no_fuel ∷ reads) = suc (cost reads)

abbrev pub weight : Connection → ℕ
weight c = length c.buffer + cost c.reads

abbrev pub IsFair : List (Result Text) → Type 0
IsFair = All (λ r. r ≢ no_fuel)

-- A call that ends, and leaves less than `n` to consume if it returns.
abbrev pub Advances {ℓ} : {A : Type ℓ} → ℕ → Result A × Connection → Type 0
Advances n (ok a, c) = (weight c < n) × IsFair c.reads
Advances n (throw e, c) = Unit
Advances n (undefined, c) = Unit
Advances n (no_fuel, c) = ⊥

Advances-mono {ℓ} :
    {A : Type ℓ} (m n : ℕ) (r : Result A × Connection) → m ≤ n → Advances m r → Advances n r
Advances-mono m n (ok a, c) h (k, fair) = (omega arith, fair)
Advances-mono m n (throw e, c) h k = tt
Advances-mono m n (undefined, c) h k = tt
Advances-mono m n (no_fuel, c) h k = absurd k

popped-Advances :
    (sep : Text) (c : Connection) (j : ℕ)
    → 0 < length sep
    → IsFair c.reads
    → find_first sep c.buffer ≡ some j
    → Advances (weight c) (popped (pop_n_sstream c.buffer j (length sep)) c)
popped-Advances sep c j long fair e =
    rw (pop_found sep c.buffer j e)
      (omega (arith, find_first-le sep c.buffer j e, length-drop (j + length sep) c.buffer), fair)

popped_all-Advances :
    (c : Connection) (n : ℕ)
    → IsFair c.reads
    → weight c < n
    → Advances n (popped (pop_n_sstream c.buffer (length c.buffer) 0) c)
popped_all-Advances c n fair h =
    rw
      (pop_n_sstream-eq c.buffer (length c.buffer) 0 (length c.buffer) (omega arith) (omega arith)
        (omega arith))
      (omega (arith, length-drop (length c.buffer) c.buffer), fair)

read_loop_end :
    (sep chunk : Text) (reads : List (Result Text)) (c : Connection)
    → text_eq chunk [] ≡ true
    → find_first sep (c.buffer ++ chunk) ≡ none
    → read_loop sep (ok chunk ∷ reads) c
      ≡ popped
          (pop_n_sstream (c.buffer ++ chunk) (length (c.buffer ++ chunk)) 0)
          (record c { reads = reads; buffer = c.buffer ++ chunk })
read_loop_end sep chunk reads c blank e =
    unfold read_loop in rw (find_zero (c.buffer ++ chunk) sep ∙ e, read_loop) (rw blank)

read_loop-Advances :
    (sep : Text) (reads : List (Result Text)) (c : Connection)
    → 0 < length sep
    → IsFair reads
    → Advances (length c.buffer + cost reads) (read_loop sep reads c)
read_loop-Advances sep [] c long fair = unfold read_loop in tt
read_loop-Advances sep (throw e ∷ reads) c long fair = unfold read_loop in tt
read_loop-Advances sep (undefined ∷ reads) c long fair = unfold read_loop in tt
read_loop-Advances sep (no_fuel ∷ reads) c long fair = absurd (fair.0 refl)
read_loop-Advances sep (ok chunk ∷ reads) c long fair =
    let c' = record c { reads = reads; buffer = c.buffer ++ chunk } in
    let n = length c.buffer + cost (ok chunk ∷ reads) in
    let added = length-append c.buffer chunk in
    elim (Option-cases (find_first sep (c.buffer ++ chunk))) [
      | inr (j, found) ↦
          rw (read_loop_pop sep chunk reads c j found) (
            Advances-mono (weight c') n _ (omega arith)
              (popped-Advances sep c' j long fair.1 found))
      | inl miss ↦ elim (Bool-cases (text_eq chunk [])) [
        | inl blank ↦
            rw (read_loop_end sep chunk reads c blank miss)
              (popped_all-Advances c' n fair.1 (omega arith))
        | inr more ↦
            rw (read_loop_more sep chunk reads c (λ e. ground (arith, text_eq_iff chunk [])) miss) (
              Advances-mono (weight c') n _ (omega arith)
                (read_loop-Advances sep reads c' long fair.1))
      ]
    ]

read_until-Advances :
    (sep : Text) (c : Connection)
    → 0 < length sep
    → IsFair c.reads
    → Advances (weight c) (read_until sep c)
read_until-Advances sep c long fair = elim (Option-cases (find_first sep c.buffer)) [
  | inl miss ↦
      unfold read_until in
      rw (find_zero c.buffer sep ∙ miss, read_until) (read_loop-Advances sep c.reads c long fair)
  | inr (j, found) ↦
      unfold read_until in
      rw (find_zero c.buffer sep ∙ found, read_until) (popped-Advances sep c j long fair found)
]

resume-Advances :
    {A : Type 0} {B : Type 0} (n : ℕ) (r : Result A × Connection) (f : A → M B)
    → Advances n r
    → ((a : A) (c : Connection) → weight c < n → IsFair c.reads → Advances n (f a c))
    → Advances n (resume r f)
resume-Advances n (ok a, c) f h k = k a c h.0 h.1
resume-Advances n (throw e, c) f h k = tt
resume-Advances n (undefined, c) f h k = tt
resume-Advances n (no_fuel, c) f h k = absurd h

resume-ends :
    {A : Type 0} {B : Type 0} (n : ℕ) (r : Result A × Connection) (f : A → M B)
    → Advances n r
    → ((a : A) (c : Connection) → weight c < n → IsFair c.reads → (f a c).0 ≢ no_fuel)
    → (resume r f).0 ≢ no_fuel
resume-ends n (ok a, c) f h k = k a c h.0 h.1
resume-ends n (throw e, c) f h k = λ e. cc
resume-ends n (undefined, c) f h k = λ e. cc
resume-ends n (no_fuel, c) f h k = absurd h

lift-Advances {ℓ} :
    {A : Type ℓ} (n : ℕ) (r : Result A) (c : Connection)
    → r ≢ no_fuel
    → weight c < n
    → IsFair c.reads
    → Advances n (r, c)
lift-Advances n (ok a) c ends h fair = (h, fair)
lift-Advances n (throw e) c ends h fair = tt
lift-Advances n undefined c ends h fair = tt
lift-Advances n no_fuel c ends h fair = absurd (ends refl)

read_request-Advances : (c : Connection) → IsFair c.reads → Advances (weight c) (read_request c)
unfolding read_request
read_request-Advances c fair =
    resume-Advances (weight c) _ _ (read_until-Advances crlfcrlf c (omega arith) fair)
      λ content c' less fair'.
        resume-Advances (weight c) (parse_request_frame (record { contents = content }), c') _
          (lift-Advances (weight c) _ c' (parse_request_frame-ends _) less fair')
          λ request c'' less' fair''. (less', fair'')

send-Advances :
    (n : ℕ) (sends : List Sent) (s : Text) (c : Connection)
    → weight c < n
    → IsFair c.reads
    → Advances n (send sends s c)
unfolding send
send-Advances n [] s c h fair = (h, fair)
send-Advances n (sent_whole ∷ sends) s c h fair = (h, fair)
send-Advances n (sent_short k ∷ sends) s c h fair = (h, fair)
send-Advances n (sent_failed ∷ sends) s c h fair = tt

write_response-Advances :
    (n : ℕ) (response : HttpResponse) (c : Connection)
    → weight c < n
    → IsFair c.reads
    → Advances n (write_response response c)
unfolding write_response write
write_response-Advances n response c h fair = send-Advances n c.sends _ c h fair

send-ends : (sends : List Sent) (s : Text) (c : Connection) → (send sends s c).0 ≢ no_fuel
unfolding send
send-ends [] s c = λ e. cc
send-ends (sent_whole ∷ sends) s c = λ e. cc
send-ends (sent_short k ∷ sends) s c = λ e. cc
send-ends (sent_failed ∷ sends) s c = λ e. cc

module _ (handler : HttpRequest → Result HttpResponse)
    (answers : (r : HttpRequest) → handler r ≢ no_fuel) where
  answer-Advances :
      (n : ℕ) (request : HttpRequest) (c : Connection)
      → weight c < n
      → IsFair c.reads
      → Advances n (answer handler request c)
  answer-Advances n request c h fair =
      elim (Bool-cases (has_header request.headers (codes "Host"))) [
        | inl named ↦
            unfold answer in
            rw named (
              resume-Advances n (handler request, c) _
                (lift-Advances n _ c (answers request) h fair)
                λ response c1 h1 fair1.
                  resume-Advances n (write_response response c1) _
                    (write_response-Advances n response c1 h1 fair1) λ u c2 h2 fair2. (h2, fair2))
        | inr unnamed ↦
            unfold answer in
            rw unnamed (
              resume-Advances n (write_response bad_request_response c) _
                (write_response-Advances n _ c h fair) λ u c2 h2 fair2. (h2, fair2))
      ]

  -- A passage through the loop leaves less to consume.
  pub serve_once-Advances :
      (c : Connection) → IsFair c.reads → Advances (weight c) (serve_once handler c)
  serve_once-Advances c fair =
      resume-Advances (weight c) (read_request c) _ (read_request-Advances c fair)
        λ request c1 h1 fair1. answer-Advances (weight c) request c1 h1 fair1

  serve_loop-ends :
      (fuel : ℕ) (c : Connection)
      → weight c < fuel
      → IsFair c.reads
      → (serve_loop handler fuel c).0 ≢ no_fuel
  unfolding serve_loop
  serve_loop-ends zero c h fair = absurd (omega arith)
  serve_loop-ends (suc f) c h fair =
      resume-ends (weight c) (serve_once handler c) _ (serve_once-Advances c fair)
        λ again c2 h2 fair2.
          elim again
            as (λ b.
              (elim b as (λ _. M (Unit {0})) [
                | true ↦ serve_loop handler f
                | false ↦ λ c. (ok tt, c)
              ]
                c2).0
              ≢ no_fuel) [ true ↦ serve_loop-ends f c2 (omega arith) fair2 | false ↦ λ e. cc ]

  catch_all-ends :
      (r : Result (Unit {0}) × Connection) → r.0 ≢ no_fuel → (catch_all handler r).0 ≢ no_fuel
  unfolding catch_all write_response write
  catch_all-ends (ok a, c) h = h
  catch_all-ends (undefined, c) h = h
  catch_all-ends (no_fuel, c) h = h
  catch_all-ends (throw http_request_parse_error, c) h = send-ends c.sends _ c
  catch_all-ends (throw connection_closed, c) h = λ e. cc
  catch_all-ends (throw _, c) h = send-ends c.sends _ c

  -- If the handler always ends, and no read is cut short, then `handle_connection` ends, with as
  -- many rounds as there are bytes and reads to come and one more.
  pub handle_connection-ends :
      (fuel : ℕ) (c : Connection)
      → weight c < fuel
      → IsFair c.reads
      → (handle_connection handler fuel c).0 ≢ no_fuel
  unfolding handle_connection
  handle_connection-ends fuel c h fair = catch_all-ends _ (serve_loop-ends fuel c h fair)
