-- ===== src/AsyncServer/Steps.antt =====
-- The states that a connection of the asynchronous server reaches, under every schedule.
use cse124_httpserver.Base.{
  ℕ, ◌-◌, ◌≡◌, ◌≢◌, Option, none, some, List, [], ◌∷◌, ◌++◌, All, length, Text, ok,
}
use cse124_httpserver.Http.{HttpRequest, HttpResponse}
use cse124_httpserver.Connection.{Recv, bytes, would_block, failed}
use cse124_httpserver.AsyncConnection.{Send, send_fails, WritePollable}
use cse124_httpserver.AsyncConnection.Writing.{AcceptedBy}
use cse124_httpserver.AsyncFiles.{FileRead, got, FileReadPollable}
use cse124_httpserver.AsyncHandlers.{Task}
use cse124_httpserver.AsyncServer.{
  AsyncHttpConnection, Pending, request_read, file_read, response_write, handle_http_connection,
  notify_request_read, notify_file_read, notify_response_write,
}

abbrev pub listed : Option Pending → List Pending
listed none = []
listed (some p) = p ∷ []

abbrev pub text_of : Recv → Text
text_of (bytes s) = s
text_of would_block = []
text_of failed = []

-- The end of a file is reported when all of its contents have been read.
abbrev pub IsReadOf : Text → FileReadPollable → FileRead → Type 0
IsReadOf contents p (got []) = p.buffer ≡ contents
IsReadOf contents p _ = Unit

abbrev pub fresh : ℕ → AsyncHttpConnection
fresh peer = record { buffer = []; wire = []; remote_ip = peer }

-- The pollables in the loop, the connection, and the text it has received. `poll` reports a socket
-- that has something to read, so that `recv` does not block; `send` takes at most what it is given,
-- and does not fail. A pollable may also be dropped, as when its deadline is past.
pub data Reach (handler : HttpRequest → Task HttpResponse) (contents : Text → Text) (peer : ℕ)
    : List Pending → AsyncHttpConnection → Text → Type 0 where
  accepts :
      (now : ℕ) (next : Option Pending) {conn : AsyncHttpConnection}
      → handle_http_connection handler now (fresh peer) ≡ (ok next, conn)
      → Reach handler contents peer (listed next) conn []
  reads :
      (now started : ℕ) (received : Recv) (ps : List Pending) {conn conn' : AsyncHttpConnection}
      {input : Text}
      → Reach handler contents peer (request_read started ∷ []) conn input
      → received ≢ would_block
      → notify_request_read handler now started received conn ≡ (ok ps, conn')
      → Reach handler contents peer ps conn' (input ++ text_of received)
  reads_page :
      (now : ℕ) (p : FileReadPollable) (k : Text → Task HttpResponse) (request : HttpRequest)
      (r : FileRead) (ps : List Pending) {conn conn' : AsyncHttpConnection} {input : Text}
      → Reach handler contents peer (file_read p k request ∷ []) conn input
      → IsReadOf (contents p.file_path) p r
      → notify_file_read handler now p k request r conn ≡ (ok ps, conn')
      → Reach handler contents peer ps conn' input
  writes :
      (now : ℕ) (w : WritePollable) (callback : Option HttpRequest) (sends : List Send)
      (ps : List Pending) {conn conn' : AsyncHttpConnection} {input : Text}
      → Reach handler contents peer (response_write w callback ∷ []) conn input
      → AcceptedBy (length w.message - w.total_sent) sends
      → All (λ s. s ≢ send_fails) sends
      → notify_response_write handler now w callback sends conn ≡ (ok ps, conn')
      → Reach handler contents peer ps conn' input
  drops :
      {ps : List Pending} {conn : AsyncHttpConnection} {input : Text}
      → Reach handler contents peer ps conn input
      → Reach handler contents peer [] conn input
