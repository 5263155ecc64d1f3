-- ===== src/Http/Printing.antt =====
-- http.cpp and util.h: the stream operators of the messages, which print them for tests and messages,
-- and the operators `!=`. A quote is byte 39.
use cse124_httpserver.Base.{Bool, not, List, [], ◌∷◌, ◌++◌, Text, codes}
use cse124_httpserver.Util.Decimal.{to_string}
use cse124_httpserver.Http.{HttpFrame, HttpHeader, HttpRequest, HttpStatus, HttpResponse}
use cse124_httpserver.Http.Equality.{frame_eq, header_eq, request_eq, status_eq, response_eq}

abbrev quoted : Text → Text
quoted s = 39 ∷ (s ++ 39 ∷ [])

abbrev show_frame : HttpFrame → Text
show_frame frame = codes "{" ++ (quoted frame.contents ++ codes "}")

abbrev show_header : HttpHeader → Text
show_header header = quoted (header.key ++ (codes ":" ++ header.value))

-- The rounds after the first of the loop in the operator of vectors; each element is quoted again.
unfoldable show_rest : List HttpHeader → Text
show_rest [] = []
show_rest (h ∷ headers) = codes ", " ++ (quoted (show_header h) ++ show_rest headers)

abbrev show_headers : List HttpHeader → Text
show_headers [] = codes "[]"
show_headers (h ∷ headers) =
    codes "[" ++ (quoted (show_header h) ++ (show_rest headers ++ codes "]"))

unfoldable show_request : HttpRequest → Text
unfolding show_rest
show_request request =
    codes "{"
    ++ (quoted request.method
        ++ (codes ", "
            ++ (quoted request.uri
                ++ (codes ", "
                    ++ (quoted request.version
                        ++ (codes ", "
                            ++ (show_headers request.headers
                                ++ (codes ", " ++ (quoted request.body ++ codes "}")))))))))

unfoldable show_status : HttpStatus → Text
unfolding to_string
show_status status =
    codes "{" ++ (to_string status.status_code ++ (codes ", " ++ (quoted status.name ++ codes "}")))

unfoldable show_response : HttpResponse → Text
unfolding show_rest show_status
show_response response =
    codes "{"
    ++ (quoted response.version
        ++ (codes ", "
            ++ (show_status response.status
                ++ (codes ", "
                    ++ (show_headers response.headers
                        ++ (codes ", " ++ (quoted response.body ++ codes "}")))))))

abbrev frame_ne : HttpFrame → HttpFrame → Bool
frame_ne lhs rhs = not (frame_eq lhs rhs)

abbrev header_ne : HttpHeader → HttpHeader → Bool
header_ne lhs rhs = not (header_eq lhs rhs)

abbrev request_ne : HttpRequest → HttpRequest → Bool
request_ne lhs rhs = not (request_eq lhs rhs)

abbrev status_ne : HttpStatus → HttpStatus → Bool
status_ne lhs rhs = not (status_eq lhs rhs)

abbrev response_ne : HttpResponse → HttpResponse → Bool
response_ne lhs rhs = not (response_eq lhs rhs)
