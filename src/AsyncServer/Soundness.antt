-- ===== src/AsyncServer/Soundness.antt =====
-- The asynchronous server answers as the blocking one, under every schedule of its event loop.
use cse124_httpserver.Base.{ℕ, ◌≡◌, List, [], ◌∷◌, Text, Result}
use cse124_httpserver.Http.{HttpRequest, HttpResponse}
use cse124_httpserver.AsyncHandlers.{Task}
use cse124_httpserver.AsyncHandlers.Blocking.{supply}
use cse124_httpserver.AsyncServer.{AsyncHttpConnection, Pending, request_read}
use cse124_httpserver.AsyncServer.Steps.{Reach, accepts, reads, reads_page, writes, drops}
use cse124_httpserver.AsyncServer.Exchanges.{Settled, Waiting}
use cse124_httpserver.AsyncServer.Invariant.{Inv, Inv-Settled}
use cse124_httpserver.AsyncServer.Writes.{writes-Inv}
use cse124_httpserver.AsyncServer.Events.{accepts-Inv, reads-Inv, reads_page-Inv}

module _ (handler : HttpRequest → Task HttpResponse) (contents : Text → Text)
    (blocking : HttpRequest → Result HttpResponse) (peer : ℕ)
    (agrees : (request : HttpRequest) → supply contents (handler request) ≡ blocking request) where
  pub Reach-Inv :
      (ps : List Pending) (conn : AsyncHttpConnection) (input : Text)
      → Reach handler contents peer ps conn input
      → Inv handler contents blocking peer ps conn input
  Reach-Inv _ conn _ (accepts now next e) =
      accepts-Inv handler contents blocking peer agrees now next conn e
  Reach-Inv ps conn _ (reads now started received _ {conn = before} {input = input} r comes e) =
      reads-Inv handler contents blocking peer agrees now started received ps before conn input
        (Reach-Inv _ before input r) comes e
  Reach-Inv ps conn input (reads_page now p k request read _ {conn = before} r whole e) =
      reads_page-Inv handler contents blocking peer agrees now p k request read ps before conn input
        (Reach-Inv _ before input r) whole e
  Reach-Inv ps conn input (writes now w callback sends _ {conn = before} r small good e) =
      writes-Inv handler contents blocking peer agrees now w callback sends ps before conn input
        (Reach-Inv _ before input r) small good e
  Reach-Inv _ conn input (drops {ps = ps} r) =
      Inv-Settled handler contents blocking peer ps conn input (Reach-Inv ps conn input r)

  -- What the socket took is the start of the replies to the frames received.
  pub Reach-Settled :
      (ps : List Pending) (conn : AsyncHttpConnection) (input : Text)
      → Reach handler contents peer ps conn input
      → Settled blocking peer conn input
  Reach-Settled ps conn input r =
      Inv-Settled handler contents blocking peer ps conn input (Reach-Inv ps conn input r)

  -- All frames received are replied to.
  pub Reach-Waiting :
      (started : ℕ) (conn : AsyncHttpConnection) (input : Text)
      → Reach handler contents peer (request_read started ∷ []) conn input
      → Waiting blocking peer conn input
  Reach-Waiting started conn input r =
      let (xs, b, missing, before) = Reach-Inv (request_read started ∷ []) conn input r in
      (xs, b.received, missing, b.replied, before)
