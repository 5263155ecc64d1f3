-- ===== src/Tests/Mocks.antt =====
-- Mocks on examples.
use cse124_httpserver.Base.{◌≡◌, refl, arith, false, true, [], ◌∷◌, ◌++◌, codes, text_eq}
use cse124_httpserver.Http.Equality.{request_eq}
use cse124_httpserver.Mocks.{MockConnection, mock_connection_of_size, allow_request_mock}
use cse124_httpserver.Mocks.Delivering.{Delivered, reads_of-Delivered}
use cse124_httpserver.Mocks.Answering.{allow_request_mock-append}
use cse124_httpserver.Tests.Http.{index_request}
use cse124_httpserver.Tests.Handlers.{cat_request}

-- Seven bytes, three at a time.
abbrev by_threes : MockConnection
by_threes = mock_connection_of_size (codes "dog-cat") 3 7

reads_of-Delivered_example : Delivered by_threes
reads_of-Delivered_example = reads_of-Delivered by_threes (omega arith) (omega arith) (ground arith)

not_index : request_eq index_request cat_request ≡ false
unfolding request_eq text_eq
not_index = refl

itself : request_eq cat_request cat_request ≡ true
unfolding request_eq text_eq
itself = refl

allow_request_mock-append_example :
    allow_request_mock (((index_request, true) ∷ []) ++ (cat_request, false) ∷ []) cat_request
    ≡ false
allow_request_mock-append_example =
    allow_request_mock-append ((index_request, true) ∷ []) [] cat_request cat_request false
      (not_index, tt) itself
