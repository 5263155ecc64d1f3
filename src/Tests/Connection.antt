-- ===== src/Tests/Connection.antt =====
-- Connections on examples.
mod Truncating
pub mod Threads
mod Lifetime
use cse124_httpserver.Base.{
  ◌≡◌, ◌≢◌, refl, arith, true, false, none, some, List, [], ◌∷◌, ◌++◌, Text, codes, text_eq, find,
  find_first, Result, ok, throw, no_fuel, connection_closed, connection_error,
  http_request_parse_error,
}
use cse124_httpserver.Util.{to_lowercase, join}
use cse124_httpserver.Http.{
  HttpRequest, HttpResponse, has_header, get_header, not_found_response, bad_request_response,
  parse_request_frame,
}
use cse124_httpserver.Connection.{
  Connection, sent_failed, crlfcrlf, read_until, says_close, handle_connection,
}
use cse124_httpserver.Connection.Chunks.{
  chunks, Delivers, Found, read_until-Found, whole, read_until-closed,
}
use cse124_httpserver.Connection.Answers.{answer_for}
use cse124_httpserver.Connection.Frames.{IsFrame}
use cse124_httpserver.Connection.Replies.{Wrote, handle_connection-answer_for}
use cse124_httpserver.Connection.Accepting.{accepted, accepts, serve}
use cse124_httpserver.Connection.Serving.{handle_blocking, left, serve-failed_reply}
use cse124_httpserver.Connection.Pipeline.{
  stream, sent, IsServed, Served, handle_connection-pipeline,
}
use cse124_httpserver.Connection.Throwing.{
  ThrowsConnectionError, handle_connection-ThrowsConnectionError,
}
use cse124_httpserver.Connection.Termination.{handle_connection-ends}
use cse124_httpserver.Tests.Http.{index_request, index_request-IsWellFormed}

abbrev pub receives : List Text → Connection
receives cs = record { reads = chunks cs; buffer = []; sends = []; written = []; peer = 7 }

-- Two lines and the start of a third, in chunks that cut a separator.
abbrev pub lines : List Text
lines = codes "dog-" ∷ codes "-cat" ∷ []

lines_full : Delivers (receives lines) lines
lines_full = (refl, ((λ e. cc), ((λ e. cc), tt)))

first_place : find_first (codes "--") (codes "dog--cat") ≡ some 3
unfolding find_first
first_place = refl

no_place : find_first (codes "==") (codes "dog--cat") ≡ none
unfolding find_first
no_place = refl

read_until-Found_example :
    Found (codes "--") (receives lines) lines 3 (read_until (codes "--") (receives lines))
read_until-Found_example =
    read_until-Found (codes "--") (receives lines) lines 3 lines_full first_place

abbrev pub answers_not_found : HttpRequest → Result HttpResponse
answers_not_found request = ok not_found_response

-- The same request twice, and the start of a third.
abbrev exchange : List (HttpRequest × HttpResponse)
exchange = (index_request, not_found_response) ∷ (index_request, not_found_response) ∷ []

abbrev arriving : List Text
arriving = sent index_request ∷ (sent index_request ++ codes "GET") ∷ []

host_named : has_header index_request.headers (codes "Host") ≡ true
unfolding has_header text_eq to_lowercase
host_named = refl

host_stays : says_close index_request ≡ false
unfolding says_close text_eq find get_header to_lowercase
host_stays = refl

index_request-IsServed : IsServed answers_not_found 7 (index_request, not_found_response)
index_request-IsServed = record {
  well = index_request-IsWellFormed;
  host = host_named;
  stays = host_stays;
  answered = refl;
}

arriving_full : Delivers (receives arriving) arriving
unfolding join
arriving_full = (refl, ((λ e. cc), ((λ e. cc), tt)))

arrived : whole (receives arriving) arriving ≡ stream exchange (codes "GET")
unfolding join
arrived = refl

no_end : find_first crlfcrlf (codes "GET") ≡ none
unfolding find_first
no_end = refl

handle_connection-pipeline_example :
    handle_connection answers_not_found 3 (receives arriving)
    ≡ (ok tt, Served answers_not_found (receives arriving) exchange (codes "GET"))
handle_connection-pipeline_example =
    handle_connection-pipeline answers_not_found exchange (codes "GET") (receives arriving) arriving
      3 (omega arith) arriving_full refl arrived
      (index_request-IsServed, (index_request-IsServed, tt)) no_end

handle_connection-ends_example :
    (handle_connection answers_not_found 11 (receives lines)).0 ≢ no_fuel
handle_connection-ends_example =
    handle_connection-ends answers_not_found (λ r e. cc) 11 (receives lines) (omega arith)
      ((λ e. cc), ((λ e. cc), tt))

-- A frame without a Host header.
abbrev nameless : Text
nameless = codes "GET / HTTP/1.1"

abbrev pub namelessly : List Text
namelessly = (nameless ++ crlfcrlf) ∷ []

nameless-IsFrame : IsFrame nameless
unfolding find_first
nameless-IsFrame = refl

nameless_answer : answer_for answers_not_found 7 nameless ≡ ok bad_request_response
unfolding answer_for parse_request_frame text_eq has_header
nameless_answer = refl

nothing_left : find_first crlfcrlf [] ≡ none
unfolding find_first
nothing_left = refl

answered_namelessly :
    Wrote
      (receives namelessly)
      bad_request_response
      (handle_connection answers_not_found 2 (receives namelessly))
answered_namelessly =
    handle_connection-answer_for answers_not_found nameless [] bad_request_response
      (receives namelessly) namelessly 2 (omega arith) (refl, ((λ e. cc), tt)) refl refl
      nameless-IsFrame nothing_left nameless_answer

handle_connection-answer_for_example :
    Wrote
      (receives namelessly)
      bad_request_response
      (handle_connection answers_not_found 2 (receives namelessly))
handle_connection-answer_for_example =
    handle_connection-answer_for answers_not_found nameless [] bad_request_response
      (receives namelessly) namelessly 2 (omega arith) (refl, ((λ e. cc), tt)) refl refl
      nameless-IsFrame nothing_left nameless_answer

-- A frame that does not parse, from a peer that is gone when it is answered.
abbrev gone : Connection
gone = record (receives ((codes "GET" ++ crlfcrlf) ∷ [])) { sends = sent_failed ∷ [] }

unparsed : parse_request_frame (record { contents = codes "GET" }) ≡ throw http_request_parse_error
unfolding parse_request_frame text_eq
unparsed = refl

unparsed-IsFrame : IsFrame (codes "GET")
unfolding find_first
unparsed-IsFrame = refl

serve-failed_reply_example :
    serve
      (handle_blocking answers_not_found 2)
      (accepts (receives namelessly ∷ []) ++ accepted gone ∷ accepted (receives namelessly) ∷ [])
      []
    ≡ (
      throw connection_error,
      left answers_not_found 2 (receives namelessly) ∷ left answers_not_found 2 gone ∷ [],
    )
serve-failed_reply_example =
    serve-failed_reply answers_not_found 2 (receives namelessly ∷ [])
      (accepted (receives namelessly) ∷ []) (codes "GET") [] gone ((codes "GET" ++ crlfcrlf) ∷ [])
      [] (omega arith) (answered_namelessly.0, tt) (refl, ((λ e. cc), tt)) refl refl
      unparsed-IsFrame unparsed

handle_connection-ThrowsConnectionError_example :
    ThrowsConnectionError (handle_connection answers_not_found 2 gone).0
handle_connection-ThrowsConnectionError_example =
    handle_connection-ThrowsConnectionError answers_not_found 2 gone
