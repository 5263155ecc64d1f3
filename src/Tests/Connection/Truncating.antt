-- ===== src/Tests/Connection/Truncating.antt =====
-- A reply that is cut short, on an example.
use cse124_httpserver.Base.{
  ◌≡◌, refl, List, [], ◌∷◌, ◌++◌, take, Text, codes, find, find_first, text_eq,
}
use cse124_httpserver.Util.{to_lowercase}
use cse124_httpserver.Http.{
  serialize, pack_response, not_found_response, parse_request_frame, has_header, get_header,
}
use cse124_httpserver.Connection.{Connection, sent_short, crlfcrlf, says_close, handle_connection}
use cse124_httpserver.Connection.Chunks.{Delivers, whole}
use cse124_httpserver.Connection.Frames.{Continued}
use cse124_httpserver.Connection.Truncating.{handle_connection-short_reply}
use cse124_httpserver.Tests.Connection.{receives, answers_not_found}

abbrev hosted : Text
hosted = codes "GET / HTTP/1.1\r\nHost: x"

hosted-Continued : Continued answers_not_found 7 (hosted, not_found_response)
unfolding parse_request_frame text_eq find find_first has_header get_header says_close to_lowercase
hosted-Continued = (_, refl, refl, refl, refl, refl)

-- The peer takes five bytes of the reply.
abbrev slow : Connection
slow = record (receives ((hosted ++ crlfcrlf) ∷ [])) { sends = sent_short 5 ∷ [] }

handle_connection-short_reply_example :
    (c' : Connection) × (cs' : List Text) × Delivers c' cs'
    × (whole c' cs' ≡ [])
    × (c'.sends ≡ [])
    × (c'.peer ≡ 7)
    × (c'.written ≡ take 5 (serialize (pack_response not_found_response)))
    × (handle_connection answers_not_found 3 slow ≡ handle_connection answers_not_found 2 c')
handle_connection-short_reply_example =
    handle_connection-short_reply answers_not_found 2 hosted [] not_found_response slow
      ((hosted ++ crlfcrlf) ∷ []) 5 [] (refl, ((λ e. cc), tt)) refl hosted-Continued refl
