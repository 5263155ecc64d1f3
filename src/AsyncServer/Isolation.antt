-- ===== src/AsyncServer/Isolation.antt =====
-- The connections in the event loop of the asynchronous server do not disturb each other.
use cse124_httpserver.Base.{
  ℕ, ◌≡◌, refl, ap, inl, inr, Bool, true, false, Bool-cases, Option, none, some, List, [], ◌∷◌,
  ◌++◌, All, All-split, Text, Result, ok, throw, undefined, no_fuel,
}
use cse124_httpserver.Http.{HttpRequest, HttpResponse}
use cse124_httpserver.Connection.{crlfcrlf}
use cse124_httpserver.Connection.Accepting.{accepted, accept_fails}
use cse124_httpserver.EventLoop.{Notified, returned}
use cse124_httpserver.EventLoop.Turns.{successors, turn-All}
use cse124_httpserver.Listener.{
  SocketConnection, Registered, listening, serving, as_serving, registered, notify_registered,
}
use cse124_httpserver.AsyncConnection.{WritePollable, try_write}
use cse124_httpserver.AsyncConnection.Reading.{notify_read}
use cse124_httpserver.AsyncFiles.{FileReadPollable, notify_file}
use cse124_httpserver.AsyncHandlers.{Task}
use cse124_httpserver.AsyncHandlers.Blocking.{supply}
use cse124_httpserver.AsyncServer.{
  AsyncHttpConnection, Pending, request_read, file_read, response_write, leaves, run_task,
  continue_with, on_written, notify_request_read, notify_file_read, notify_response_write,
  after_file, after_write,
}
use cse124_httpserver.AsyncServer.Steps.{text_of, fresh, Reach, accepts, reads, reads_page, writes}
use cse124_httpserver.AsyncServer.Soundness.{Reach-Inv}
use cse124_httpserver.AsyncServer.InLoop.{fresh_reads}
use cse124_httpserver.AsyncServer.Served.{
  Kernel, Served, InLoop, at, broken, ends, ends_read, ends_write, served, notify_served,
  notify_pending, on_accepted, server_pollables, IsLawful, Runs, starts, turns,
}

module _ (handler : HttpRequest → Task HttpResponse) (contents : Text → Text)
    (blocking : HttpRequest → Result HttpResponse)
    (agrees : (request : HttpRequest) → supply contents (handler request) ≡ blocking request) where
  -- A connection is in a state that it reaches alone.
  abbrev Alone : InLoop → Type 0
  Alone (at s) = Reach handler contents s.peer (s.pending ∷ []) s.conn s.input
  Alone broken = Unit

  abbrev AllAlone : Registered InLoop → Type 0
  AllAlone (listening more) = Unit
  AllAlone (serving q) = Alone q

  -- What a notification leaves is one pollable at most.
  Reach-each :
      (peer : ℕ) (p : Pending) (conn : AsyncHttpConnection) (input : Text) (ps : List Pending)
      → Reach handler contents peer (p ∷ ps) conn input
      → ps ≡ []
  Reach-each peer p conn input [] r = refl
  Reach-each peer p conn input (q ∷ ps) r =
      absurd (Reach-Inv handler contents blocking peer agrees (p ∷ q ∷ ps) conn input r)

  module _ (kernel : Served → Kernel) (callback : SocketConnection → Option InLoop) where
    abbrev left : InLoop × Notified InLoop → List (Registered InLoop)
    left x = successors (registered (served handler kernel) callback) (as_serving x)

    -- A pollable that returned null.
    rests-Alone :
        (s : Served)
        → Reach handler contents s.peer (s.pending ∷ []) s.conn s.input
        → All AllAlone (left (at s, returned none))
    unfolding registered served
    rests-Alone s r = elim (Bool-cases s.done) [
      | inl done ↦ rw done tt
      | inr more ↦ rw more (r, tt)
    ]

    ends-Alone :
        (s : Served) (next : Result (Option Pending))
        → ((ps : List Pending)
            → leaves handler s.done s.pending next ≡ ok ps
            → Reach handler contents s.peer ps s.conn s.input)
        → All AllAlone (left (ends s next))
    unfolding registered served
    ends-Alone s (ok none) h = elim (Bool-cases s.done) [
      | inl done ↦ rw done tt
      | inr more ↦ rw more (h (s.pending ∷ []) (rw more refl), tt)
    ]
    ends-Alone s (ok (some p)) h = elim (Bool-cases s.done) [
      | inl done ↦ rw done (h (p ∷ []) (rw done refl), tt)
      | inr more ↦ absurd (
          Reach-Inv handler contents blocking s.peer agrees (s.pending ∷ p ∷ []) s.conn s.input
            (h (s.pending ∷ p ∷ []) (rw more refl)))
    ]
    ends-Alone s (throw e) h = tt
    ends-Alone s undefined h = (tt, tt)
    ends-Alone s no_fuel h = (tt, tt)

    ends_read-Alone :
        (now : ℕ) (k : Text → Task HttpResponse) (request : HttpRequest) (s : Served)
        (read : Result (FileReadPollable × Option Text))
        → ((ps : List Pending)
            → after_file handler now s.conn k request read ≡ ok ps
            → Reach handler contents s.peer ps s.conn s.input)
        → All AllAlone (left (ends_read now k request s read))
    unfolding registered served
    ends_read-Alone now k request s (ok (p, none)) h =
        rests-Alone (record s { pending = file_read p k request; done = p.done }) (h _ refl)
    ends_read-Alone now k request s (ok (p, some text)) h =
        ends-Alone (record s { pending = file_read p k request; done = p.done })
          (run_task now s.conn request (k text)) h
    ends_read-Alone now k request s (throw e) h = tt
    ends_read-Alone now k request s undefined h = (tt, tt)
    ends_read-Alone now k request s no_fuel h = (tt, tt)

    ends_write-Alone :
        (now : ℕ) (caller : Option HttpRequest) (s : Served) (done : Bool) (w : WritePollable)
        → ((ps : List Pending) (conn' : AsyncHttpConnection)
            → after_write handler now caller s.conn (done, w) ≡ (ok ps, conn')
            → Reach handler contents s.peer ps conn' s.input)
        → All AllAlone (left (ends_write handler now caller s (done, w)))
    ends_write-Alone now caller s true w h =
        let w' = record w { done = true } in
        let conn' = record (s.conn) { wire = w.wire } in
        let after = on_written handler now conn' caller in
        ends-Alone (record s { pending = response_write w' caller; done = true; conn = after.1 })
          after.0 (λ ps e. h ps after.1 (ap (λ o. (o, after.1)) e))
    ends_write-Alone now caller s false w h =
        let w' = record w { done = false } in
        let conn' = record (s.conn) { wire = w.wire } in
        rests-Alone (record s { pending = response_write w' caller; done = false; conn = conn' })
          (h _ conn' refl)

    notify_pending-Alone :
        (s : Served) (k : Kernel) (p : Pending)
        → Reach handler contents s.peer (p ∷ []) s.conn s.input
        → IsLawful contents p k
        → All AllAlone (left (notify_pending handler k s p))
    unfolding notify_request_read notify_file_read notify_response_write
    notify_pending-Alone s k (request_read started) r lawful =
        let (done, step) = notify_read crlfcrlf s.conn.buffer k.received in
        let after = continue_with handler k.now s.conn step in
        ends-Alone
          (record s {
            pending = request_read started;
            done = done;
            conn = after.1;
            input = s.input ++ text_of k.received;
          })
          after.0 (λ ps e. reads k.now started k.received ps r lawful (ap (λ o. (o, after.1)) e))
    notify_pending-Alone s k (file_read p f request) r lawful =
        ends_read-Alone k.now f request s (notify_file k.read p)
          (λ ps e. reads_page k.now p f request k.read ps r lawful (ap (λ o. (o, s.conn)) e))
    notify_pending-Alone s k (response_write w caller) r lawful =
        let w' = record w { wire = s.conn.wire } in
        ends_write-Alone k.now caller s (try_write k.sends w').0 (try_write k.sends w').1
          (λ ps conn' e. writes k.now w caller k.sends ps r lawful.0 lawful.1 e)

  on_accepted_reads :
      (made : ℕ) (socket : SocketConnection)
      → on_accepted handler made socket
        ≡ some (
            at (record {
              pending = request_read made;
              done = false;
              conn = fresh socket.client_remote_ip;
              peer = socket.client_remote_ip;
              input = [];
            }))
  unfolding on_accepted
  on_accepted_reads made socket = rw (fresh_reads handler made socket.client_remote_ip) refl

  -- A notification keeps every connection in a state that it reaches alone.
  registered-Alone :
      (kernel : Served → Kernel) (made : ℕ) (p : Registered InLoop) (revents : ℕ)
      → ((s : Served) → IsLawful contents s.pending (kernel s))
      → AllAlone p
      → All AllAlone (
          successors
            (server_pollables handler kernel made)
            ((server_pollables handler kernel made).notify p revents))
  unfolding registered served notify_served notify_registered
  registered-Alone kernel made (serving (at s)) revents lawful r =
      notify_pending-Alone kernel (on_accepted handler made) s (kernel s) s.pending r (lawful s)
  registered-Alone kernel made (serving broken) revents lawful r = (tt, tt)
  registered-Alone kernel made (listening []) revents lawful r = tt
  registered-Alone kernel made (listening (accept_fails ∷ more)) revents lawful r = tt
  registered-Alone kernel made (listening (accepted (sock, peer) ∷ more)) revents lawful r =
      let socket : SocketConnection = record { client_sock = sock; client_remote_ip = peer } in
      rw (on_accepted_reads made socket)
        (tt, (accepts made (some (request_read made)) (fresh_reads handler made peer), tt))

  -- Every connection in the server's loop is in a state that it reaches alone.
  Runs-Alone : (ps : List (Registered InLoop)) → Runs handler contents ps → All AllAlone ps
  Runs-Alone _ (starts more) = (tt, tt)
  Runs-Alone ps (turns kernel made now polled cur _ before lawful e _) =
      turn-All (server_pollables handler kernel made) AllAlone
        (λ p revents. registered-Alone kernel made p revents lawful) polled now cur ps
        (Runs-Alone cur before) e

  pub Runs-Reach :
      (before after : List (Registered InLoop)) (s : Served)
      → Runs handler contents (before ++ serving (at s) ∷ after)
      → Reach handler contents s.peer (s.pending ∷ []) s.conn s.input
  Runs-Reach before after s r =
      (All-split AllAlone before (serving (at s) ∷ after) (Runs-Alone _ r)).1.0
