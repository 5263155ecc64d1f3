-- ===== src/Connection/Answers.antt =====
-- What the blocking server answers to a frame: the response that `handle_connection` writes for it.
use cse124_httpserver.Base.{
  ℕ, if◌then◌else◌, Text, codes, Exception, Result, ok, throw, http_request_parse_error,
  connection_closed, ◌>>=◌,
}
use cse124_httpserver.Http.{
  HttpRequest, HttpResponse, parse_request_frame, has_header, bad_request_response,
  internal_server_error_response,
}

-- The response that a `catch` clause of `handle_connection` writes.
abbrev pub caught : Exception → Result HttpResponse
caught http_request_parse_error = ok bad_request_response
caught connection_closed = throw connection_closed
caught e = ok internal_server_error_response

abbrev pub catch_answer : Result HttpResponse → Result HttpResponse
catch_answer (throw e) = caught e
catch_answer r = r

abbrev pub answer_request : (HttpRequest → Result HttpResponse) → HttpRequest → Result HttpResponse
answer_request handler request =
    if has_header request.headers (codes "Host") then handler request else ok bad_request_response

unfoldable pub answer_for : (HttpRequest → Result HttpResponse) → ℕ → Text → Result HttpResponse
answer_for handler peer text = catch_answer (do
  request ← parse_request_frame (record { contents = text })
  answer_request handler (record request { remote_ip = peer }))
