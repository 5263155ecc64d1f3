-- ===== src/AsyncServer/Invariant.antt =====
-- What holds of a connection of the asynchronous server at each kind of pollable, and that the
-- callbacks keep it.
use cse124_httpserver.Base.{
  ℕ, ◌≡◌, refl, sym, ap, ◌∙◌, false, Option, none, some, List, [], ◌∷◌, ◌++◌, append_assoc,
  append-nil, take, drop, take-append-drop, All, arith, Text, Exception, Result, ok, throw,
  undefined, no_fuel, http_request_parse_error, connection_closed, connection_error, listener_error,
  runtime_error, out_of_range, invalid_argument, find_first,
}
use cse124_httpserver.Http.{HttpRequest, HttpResponse, serialize, pack_response}
use cse124_httpserver.Connection.{crlfcrlf, says_close}
use cse124_httpserver.AsyncConnection.{WritePollable}
use cse124_httpserver.AsyncConnection.Writing.{HasSent}
use cse124_httpserver.AsyncHandlers.{Task, returns, throws, faults, starves, reads_file}
use cse124_httpserver.AsyncHandlers.Blocking.{supply}
use cse124_httpserver.AsyncServer.{
  AsyncHttpConnection, Pending, request_read, file_read, response_write, write_response_async,
  run_task, catch_request,
}
use cse124_httpserver.Connection.Answers.{caught, catch_answer, answer_for}
use cse124_httpserver.AsyncServer.Steps.{listed}
use cse124_httpserver.Connection.Frames.{
  Exchanges, frames_text, replies_text, IsFrame, Continued, Answered, Ended, Ended-snoc,
}
use cse124_httpserver.AsyncServer.Exchanges.{frames_text-snoc, replies_text-snoc, Settled}

module _ (handler : HttpRequest → Task HttpResponse) (contents : Text → Text)
    (blocking : HttpRequest → Result HttpResponse) (peer : ℕ) where
  -- The exchanges are over, and of the text received this remains.
  pub record Between (xs : Exchanges) (rest : Text) (conn : AsyncHttpConnection) (input : Text)
      : Type 0 where
    pub address : conn.remote_ip ≡ peer
    pub received : input ≡ frames_text xs ++ rest
    pub replied : conn.wire ≡ replies_text xs
    pub answers : Ended blocking peer xs

  -- A frame was taken from the buffer and is not replied to.
  abbrev pub Asked : Exchanges → Text → AsyncHttpConnection → Text → Type 0
  Asked xs text conn input =
      Between xs (text ++ (crlfcrlf ++ conn.buffer)) conn input
      × IsFrame text
      × All (Continued blocking peer) xs

  -- If the callback goes on after the response, so does the blocking server.
  abbrev pub GoesOn : Option HttpRequest → Text → HttpResponse → Type 0
  GoesOn none text response = Unit
  GoesOn (some request) text response =
      says_close request ≡ false → Continued blocking peer (text, response)

  -- What comes of the task is the response of the blocking server to the frame.
  abbrev pub Answers : Text → HttpRequest → Task HttpResponse → Type 0
  Answers text request t =
      (response : HttpResponse)
      → supply contents t ≡ ok response
      → (answer_for blocking peer text ≡ ok response) × GoesOn (some request) text response

  -- A frame is replied to by the pollable that writes.
  pub record Replying (xs : Exchanges) (text : Text) (response : HttpResponse) (w : WritePollable)
      (callback : Option HttpRequest) (conn : AsyncHttpConnection) (input : Text) : Type 0 where
    pub address : conn.remote_ip ≡ peer
    pub received : input ≡ frames_text xs ++ (text ++ (crlfcrlf ++ conn.buffer))
    pub answered : Answered blocking peer (text, response)
    pub continued : All (Continued blocking peer) xs
    pub goes_on : GoesOn callback text response
    pub whole_message : w.message ≡ serialize (pack_response response)
    pub has_sent : HasSent (replies_text xs) (record w { wire = conn.wire })

  abbrev pub At : Pending → AsyncHttpConnection → Text → Type 0
  At (request_read started) conn input =
      (xs : Exchanges) × Between xs conn.buffer conn input
      × (find_first crlfcrlf conn.buffer ≡ none)
      × All (Continued blocking peer) xs
  At (file_read p k request) conn input =
      (xs : Exchanges) × (text : Text) × Asked xs text conn input
      × Answers text request (reads_file p.file_path k)
  At (response_write w callback) conn input =
      (xs : Exchanges) × (text : Text) × (response : HttpResponse) × Replying xs text response w
        callback conn input

  abbrev pub Inv : List Pending → AsyncHttpConnection → Text → Type 0
  Inv [] conn input = Settled blocking peer conn input
  Inv (p ∷ []) conn input = At p conn input
  Inv (p ∷ q ∷ ps) conn input = ⊥

  -- Of a callback: what it returns is listed, and what it throws leaves the connection settled.
  abbrev pub Good : Result (Option Pending) → AsyncHttpConnection → Text → Type 0
  Good (ok next) conn input = Inv (listed next) conn input
  Good (throw e) conn input = Settled blocking peer conn input
  Good undefined conn input = Unit
  Good no_fuel conn input = Unit

  pub Between-Settled :
      (xs : Exchanges) (rest : Text) (conn : AsyncHttpConnection) (input : Text)
      → Between xs rest conn input
      → Settled blocking peer conn input
  Between-Settled xs rest conn input b =
      (xs, rest, [], b.received, append-nil conn.wire ∙ b.replied, b.answers)

  pub Replying-Settled :
      (xs : Exchanges) (text : Text) (response : HttpResponse) (w : WritePollable)
      (callback : Option HttpRequest) (conn : AsyncHttpConnection) (input : Text)
      → Replying xs text response w callback conn input
      → Settled blocking peer conn input
  Replying-Settled xs text response w callback conn input r = (
    xs ++ (text, response) ∷ [],
    conn.buffer,
    drop w.total_sent w.message,
    r.received ∙ sym (frames_text-snoc xs text response conn.buffer),
    ap (◌++ drop w.total_sent w.message) r.has_sent.1
        ∙ append_assoc (replies_text xs) (take w.total_sent w.message) (drop w.total_sent w.message)
        ∙ ap (◌++◌ (replies_text xs)) (take-append-drop w.total_sent w.message ∙ r.whole_message)
        ∙ sym (replies_text-snoc xs text response),
    Ended-snoc blocking peer xs (text, response) r.continued r.answered,
  )

  pub Inv-Settled :
      (ps : List Pending) (conn : AsyncHttpConnection) (input : Text)
      → Inv ps conn input
      → Settled blocking peer conn input
  Inv-Settled [] conn input h = h
  Inv-Settled (request_read started ∷ []) conn input (xs, b, _, _) =
      Between-Settled xs conn.buffer conn input b
  Inv-Settled (file_read p k request ∷ []) conn input (xs, text, (b, _, _), h) =
      Between-Settled xs _ conn input b
  Inv-Settled (response_write w callback ∷ []) conn input (xs, text, response, r) =
      Replying-Settled xs text response w callback conn input r
  Inv-Settled (p ∷ q ∷ ps) conn input h = absurd h

  -- A response to the frame that was taken.
  pub write-At :
      (now : ℕ) (xs : Exchanges) (text : Text) (response : HttpResponse)
      (callback : Option HttpRequest) (conn : AsyncHttpConnection) (input : Text)
      → Asked xs text conn input
      → answer_for blocking peer text ≡ ok response
      → GoesOn callback text response
      → At (write_response_async now conn response callback) conn input
  write-At now xs text response callback conn input (b, free, before) e on = (
    xs,
    text,
    response,
    record {
      address = b.address;
      received = b.received;
      answered = (free, e);
      continued = before;
      goes_on = on;
      whole_message = refl;
      has_sent = (omega arith, b.replied ∙ sym (append-nil (replies_text xs)));
    },
  )

  pub thrown-Good :
      (now : ℕ) (xs : Exchanges) (text : Text) (e : Exception) (conn : AsyncHttpConnection)
      (input : Text)
      → Asked xs text conn input
      → answer_for blocking peer text ≡ caught e
      → Good (catch_request now conn (throw e)) conn input
  thrown-Good now xs text http_request_parse_error conn input a h =
      write-At now xs text _ none conn input a h tt
  thrown-Good now xs text connection_closed conn input (b, _, _) h =
      Between-Settled xs _ conn input b
  thrown-Good now xs text connection_error conn input a h =
      write-At now xs text _ none conn input a h tt
  thrown-Good now xs text listener_error conn input a h =
      write-At now xs text _ none conn input a h tt
  thrown-Good now xs text runtime_error conn input a h =
      write-At now xs text _ none conn input a h tt
  thrown-Good now xs text out_of_range conn input a h =
      write-At now xs text _ none conn input a h tt
  thrown-Good now xs text invalid_argument conn input a h =
      write-At now xs text _ none conn input a h tt

  -- The callback of the request, within the `catch` clauses.
  pub task-Good :
      (now : ℕ) (xs : Exchanges) (text : Text) (request : HttpRequest) (t : Task HttpResponse)
      (conn : AsyncHttpConnection) (input : Text)
      → Asked xs text conn input
      → answer_for blocking peer text ≡ catch_answer (supply contents t)
      → ((response : HttpResponse)
          → supply contents t ≡ ok response
          → GoesOn (some request) text response)
      → Good (catch_request now conn (run_task now conn request t)) conn input
  task-Good now xs text request (returns response) conn input a h on =
      write-At now xs text response (some request) conn input a h (on response refl)
  task-Good now xs text request (throws e) conn input a h on =
      thrown-Good now xs text e conn input a h
  task-Good now xs text request faults conn input a h on = tt
  task-Good now xs text request starves conn input a h on = tt
  task-Good now xs text request (reads_file path k) conn input a h on =
      (xs, text, a, λ response e. (h ∙ ap catch_answer e, on response e))

  -- The callback of the page's contents, which no `catch` clause surrounds.
  pub run_task-Good :
      (now : ℕ) (xs : Exchanges) (text : Text) (request : HttpRequest) (t : Task HttpResponse)
      (conn : AsyncHttpConnection) (input : Text)
      → Asked xs text conn input
      → Answers text request t
      → Good (run_task now conn request t) conn input
  run_task-Good now xs text request (returns response) conn input a h =
      write-At now xs text response (some request) conn input a (h response refl).0
        (h response refl).1
  run_task-Good now xs text request (throws e) conn input (b, _, _) h =
      Between-Settled xs _ conn input b
  run_task-Good now xs text request faults conn input a h = tt
  run_task-Good now xs text request starves conn input a h = tt
  run_task-Good now xs text request (reads_file path k) conn input a h = (xs, text, a, h)
