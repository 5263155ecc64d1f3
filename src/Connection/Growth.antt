-- ===== src/Connection/Growth.antt =====
-- What a connection has sent only grows, and begins with the replies to the frames it has brought.
use cse124_httpserver.Base.{
  Option-cases, ℕ, zero, suc, ◌≤◌, ◌≡◌, inl, inr, refl, sym, ap, ◌∙◌, Bool, true, false, Bool-cases,
  List, [], ◌∷◌, ◌++◌, append_assoc, append-nil, arith, length, take, Text, codes, text_eq, find,
  Exception, http_request_parse_error, connection_closed, Result, ok, throw, undefined, no_fuel,
}
use cse124_httpserver.Util.{pop_n_sstream}
use cse124_httpserver.Http.{
  HttpRequest, HttpResponse, serialize, pack_response, has_header, bad_request_response,
  parse_request_frame,
}
use cse124_httpserver.Connection.{
  M, Connection, sent_whole, sent_short, sent_failed, serve_once, crlfcrlf, popped, read_loop,
  read_until, send, write, resume, lift, read_request, write_response, answer, serve_loop,
  catch_all, handle_connection,
}
use cse124_httpserver.Connection.Chunks.{chunks, Delivers, whole}
use cse124_httpserver.Connection.Frames.{
  Exchanges, frames_text, replies_text, Ended, read_until-Cut, read_request-ok, answer-Continued,
  serve_loop-again,
}
use cse124_httpserver.Connection.Replies.{wrote, answer_for-Replies}

-- Something, or nothing, was sent after what was sent before.
abbrev pub Grew : Connection → Connection → Type 0
Grew c c' = (more : Text) × (c'.written ≡ c.written ++ more)

Grew-same : (c : Connection) → Grew c c
Grew-same c = ([], sym (append-nil c.written))

resume-Grew :
    {A B : Type 0} (c : Connection) (before : Result A × Connection)
    (f : A → Connection → Result B × Connection)
    → Grew c before.1
    → ((a : A) (c' : Connection) → Grew c' (f a c').1)
    → Grew c (resume before f).1
resume-Grew c (ok a, c') f (sent, e) h =
    let (more, e') = h a c' in
    (sent ++ more, e' ∙ ap (◌++ more) e ∙ append_assoc c.written sent more)
resume-Grew c (throw e, c') f grew h = grew
resume-Grew c (undefined, c') f grew h = grew
resume-Grew c (no_fuel, c') f grew h = grew

popped-Grew : (c : Connection) (r : Result (Text × Text)) → Grew c (popped r c).1
popped-Grew c (ok (content, rest)) = Grew-same c
popped-Grew c (throw e) = Grew-same c
popped-Grew c undefined = Grew-same c
popped-Grew c no_fuel = Grew-same c

read_loop-Grew :
    (sep : Text) (reads : List (Result Text)) (c : Connection) → Grew c (read_loop sep reads c).1
unfolding read_loop
read_loop-Grew sep [] c = ([], sym (append-nil c.written))
read_loop-Grew sep (throw e ∷ reads) c = ([], sym (append-nil c.written))
read_loop-Grew sep (undefined ∷ reads) c = ([], sym (append-nil c.written))
read_loop-Grew sep (no_fuel ∷ reads) c = ([], sym (append-nil c.written))
read_loop-Grew sep (ok chunk ∷ reads) c =
    let buffer = c.buffer ++ chunk in
    let c' = record c { reads = reads; buffer = buffer } in
    elim (Option-cases (find buffer sep 0)) [
      | inr (pos, found) ↦
          rw (found, read_loop) (popped-Grew c' (pop_n_sstream buffer pos (length sep)))
      | inl missing ↦ elim (Bool-cases (text_eq chunk [])) [
        | inl all ↦
            rw (missing, all, read_loop) (popped-Grew c' (pop_n_sstream buffer (length buffer) 0))
        | inr more ↦ rw (missing, more, read_loop) (read_loop-Grew sep reads c')
      ]
    ]

read_until-Grew : (sep : Text) (c : Connection) → Grew c (read_until sep c).1
unfolding read_until
read_until-Grew sep c = elim (Option-cases (find c.buffer sep 0)) [
  | inr (pos, found) ↦
      rw (found, read_until) (popped-Grew c (pop_n_sstream c.buffer pos (length sep)))
  | inl missing ↦ rw (missing, read_until) (read_loop-Grew sep c.reads c)
]

read_request-Grew : (c : Connection) → Grew c (read_request c).1
unfolding read_request
read_request-Grew c =
    resume-Grew c (read_until crlfcrlf c) _ (read_until-Grew crlfcrlf c) (λ content c'.
      resume-Grew c' (parse_request_frame (record { contents = content }), c') _ (Grew-same c')
        (λ request c''. Grew-same c''))

write-Grew : (s : Text) (c : Connection) → Grew c (write s c).1
unfolding write send
write-Grew s c = elim c.sends as (λ sends. Grew c (send sends s c).1) [
  | [] ↦ (s, refl)
  | sent_whole ∷ sends ↦ (s, refl)
  | sent_short n ∷ sends ↦ (take n s, refl)
  | sent_failed ∷ sends ↦ ([], sym (append-nil c.written))
]

goes_on-Grew :
    (next : M (Unit {0})) (again : Bool) (c : Connection)
    → ((c' : Connection) → Grew c' (next c').1)
    → Grew c ((elim again as (λ _. M (Unit {0})) [ true ↦ next | false ↦ lift (ok tt) ]) c).1
goes_on-Grew next true c h = h c
goes_on-Grew next false c h = Grew-same c

module _ (handler : HttpRequest → Result HttpResponse) where
  answer-Grew : (request : HttpRequest) (c : Connection) → Grew c (answer handler request c).1
  unfolding answer write_response
  answer-Grew request c = elim (Bool-cases (has_header request.headers (codes "Host"))) [
    | inl named ↦
        rw (named, answer)
          (resume-Grew c (handler request, c) _ (Grew-same c)
            (λ response c'.
              resume-Grew c' (write_response response c') _ (write-Grew _ c')
                (λ _ c''. Grew-same c'')))
    | inr missing ↦
        rw (missing, answer)
          (resume-Grew c (write_response bad_request_response c) _ (write-Grew _ c)
            (λ _ c'. Grew-same c'))
  ]

  serve_once-Grew : (c : Connection) → Grew c (serve_once handler c).1
  serve_once-Grew c =
      resume-Grew c (read_request c) _ (read_request-Grew c) (λ request c1. answer-Grew request c1)

  serve_loop-Grew : (fuel : ℕ) (c : Connection) → Grew c (serve_loop handler fuel c).1
  unfolding serve_loop
  serve_loop-Grew zero c = Grew-same c
  serve_loop-Grew (suc f) c =
      resume-Grew c (serve_once handler c) _ (serve_once-Grew c)
        (λ again c2. goes_on-Grew (serve_loop handler f) again c2 (serve_loop-Grew f))

  caught-Grew : (e : Exception) (c : Connection) → Grew c (catch_all handler (throw e, c)).1
  unfolding catch_all write_response
  caught-Grew http_request_parse_error c = write-Grew _ c
  caught-Grew connection_closed c = Grew-same c
  caught-Grew e c = write-Grew _ c

  catch_all-Grew :
      (c : Connection) (after : Result (Unit {0}) × Connection)
      → Grew c after.1
      → Grew c (catch_all handler after).1
  unfolding catch_all write_response
  catch_all-Grew c (ok u, c') grew = grew
  catch_all-Grew c (undefined, c') grew = grew
  catch_all-Grew c (no_fuel, c') grew = grew
  catch_all-Grew c (throw e, c') (sent, same) =
      let (more, same') = caught-Grew e c' in
      (sent ++ more, same' ∙ ap (◌++ more) same ∙ append_assoc c.written sent more)

  handle_connection-Grew : (fuel : ℕ) (c : Connection) → Grew c (handle_connection handler fuel c).1
  unfolding handle_connection
  handle_connection-Grew fuel c = catch_all-Grew c _ (serve_loop-Grew fuel c)

  wrote-Grew :
      (c c' c1 : Connection) (a : HttpResponse) (rest : Text)
      → c1.written ≡ c.written
      → (more : Text) × (c'.written ≡ (wrote c1 a).written ++ (rest ++ more))
      → (more : Text) × (c'.written ≡ c.written ++ ((serialize (pack_response a) ++ rest) ++ more))
  wrote-Grew c c' c1 a rest same (more, e) = (
    more,
    e
        ∙ rw (same, append_assoc)
            (ap (◌++◌ c.written) (sym (append_assoc (serialize (pack_response a)) rest more))),
  )

  -- What is sent begins with the replies to the frames at the start of what the connection brings,
  -- if the server goes on after each of these but the last.
  pub handle_connection-Ended :
      (xs : Exchanges) (rest : Text) (c : Connection) (cs : List Text) (fuel : ℕ)
      → length xs ≤ fuel
      → Delivers c cs
      → c.sends ≡ []
      → whole c cs ≡ frames_text xs ++ rest
      → Ended handler c.peer xs
      → (more : Text) × ((handle_connection handler fuel c).1.written
          ≡ c.written ++ (replies_text xs ++ more))
  handle_connection-Ended [] rest c cs fuel h comes free e good = handle_connection-Grew fuel c
  handle_connection-Ended (x ∷ xs) rest c cs zero h comes free e good = absurd (omega arith)
  handle_connection-Ended ((text, a) ∷ []) rest c cs (suc f) h comes free e (frame, answered) =
      let cut =
        read_until-Cut c cs text rest comes frame (e ∙ append_assoc text (crlfcrlf ++ []) rest) in
      let c1 = record c { buffer = cut.0; reads = chunks cut.1 } in
      wrote-Grew c (handle_connection handler (suc f) c).1 c1 a [] refl
        (elim (answer_for-Replies handler f c text rest a cut free answered) [
          | inl stops ↦ rw stops (Grew-same (wrote c1 a))
          | inr goes_on ↦ rw goes_on (handle_connection-Grew f (wrote c1 a))
        ])
  handle_connection-Ended ((text, a) ∷ y ∷ xs) rest c cs (suc f) h comes free e
        ((r, frame, parsed, host, answered, stays), good) =
      let cut =
        read_until-Cut c cs text (frames_text (y ∷ xs) ++ rest) comes frame
          (e ∙ append_assoc text (crlfcrlf ++ frames_text (y ∷ xs)) rest) in
      let (buffer, later, run, full, left) = cut in
      let c1 = record c { buffer = buffer; reads = chunks later } in
      let again : handle_connection handler (suc f) c ≡ handle_connection handler f (wrote c1 a) =
        unfold handle_connection in
        ap (catch_all handler) (
          serve_loop-again handler f c (read_request-ok c text run parsed)
            (answer-Continued handler r a c1 host answered stays free)) in
      wrote-Grew c (handle_connection handler (suc f) c).1 c1 a (replies_text (y ∷ xs)) refl (
        rw again (
          handle_connection-Ended (y ∷ xs) rest (wrote c1 a) later f (omega arith) (refl, full) free
            left good))
