-- ===== src/Tests/Http.antt =====
-- The request parser on an example.
use cse124_httpserver.Base.{◌≡◌, refl, arith, [], ◌∷◌, ◌++◌, codes, ok}
use cse124_httpserver.Http.Termination.{Declared, parse_request_frame-Declared}
use cse124_httpserver.Http.{crlf, HttpRequest, pack_request, parse_request_frame}
use cse124_httpserver.Http.Parse.{pack-parse}
use cse124_httpserver.Http.RoundTrip.{IsWellFormed, frame_of, parse-frame_of}

abbrev pub index_request : HttpRequest
index_request = record {
  method = codes "GET";
  uri = codes "/";
  version = codes "HTTP/1.1";
  headers = record { key = codes "Host"; value = codes " a" } ∷ [];
  body = [];
  remote_ip = 0;
}

pub index_request-IsWellFormed : IsWellFormed index_request
index_request-IsWellFormed = record {
  method_lacks = ground arith;
  uri_lacks = ground arith;
  line_lacks = ground arith;
  keys_lack = ground arith;
  headers_lack = ground arith;
  uri_rooted = refl;
  version_prefix = refl;
  version_long = omega arith;
}

parse-frame_of_example : parse_request_frame (frame_of index_request) ≡ ok index_request
parse-frame_of_example = parse-frame_of index_request index_request-IsWellFormed

pack-parse_example :
    (pack_request index_request).contents ≡ (frame_of index_request).contents ++ (crlf ++ crlf)
pack-parse_example =
    pack-parse (frame_of index_request) index_request
      (parse-frame_of index_request index_request-IsWellFormed)

-- A line without parts.
parse_request_frame-Declared_example :
    Declared (parse_request_frame (record { contents = codes "GET" }))
parse_request_frame-Declared_example =
    parse_request_frame-Declared (record { contents = codes "GET" })
