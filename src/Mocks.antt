-- ===== src/Mocks.antt =====
-- mocks.cpp and mocks.h: connections, listeners, handlers, files, clients and filters that answer
-- from what they were made with. A vector is a list, an unordered_map a list of pairs of which the
-- first with a key counts.
pub mod Delivering
pub mod Answering
use cse124_httpserver.Base.{
  ℕ, zero, suc, ◌==◌, Bool, true, false, Option, none, some, List, [], ◌∷◌, ◌++◌, if◌then◌else◌,
  length, take, drop, ltb, Text, text_eq, Result, ok, throw, undefined, connection_closed,
  listener_error,
}
use cse124_httpserver.Http.{HttpRequest, HttpResponse}
use cse124_httpserver.Http.Equality.{request_eq}
use cse124_httpserver.Handlers.{File}
use cse124_httpserver.Connection.{c_string}

abbrev pub default_read_size : ℕ
default_read_size = 100

abbrev pub mock_buffer_size : ℕ
mock_buffer_size = 5000

pub record MockConnection : Type 0 where
  pub read_payload : Text
  pub write_payload : Text
  pub read_size : ℕ
  pub closed : Bool
  pub mock_remote_ip : ℕ

-- The constructors.
abbrev pub mock_connection_of_size : Text → ℕ → ℕ → MockConnection
mock_connection_of_size payload read_size mock_remote_ip = record {
  read_payload = payload;
  write_payload = [];
  read_size = read_size;
  closed = false;
  mock_remote_ip = mock_remote_ip;
}

abbrev pub mock_connection : Text → ℕ → MockConnection
mock_connection payload mock_remote_ip =
    mock_connection_of_size payload default_read_size mock_remote_ip

-- `buf[received] = '\0'` is within the buffer only if the payload read does not fill it.
abbrev pub read_text : Text → Result Text
read_text [] = throw connection_closed
read_text (c ∷ s) =
    if ltb (length (c ∷ s)) mock_buffer_size then ok (c_string (c ∷ s)) else undefined

-- `MockConnection::read`
unfoldable pub read_mock : MockConnection → Result Text × MockConnection
read_mock conn = (
  read_text (take conn.read_size conn.read_payload),
  record conn { read_payload = drop conn.read_size conn.read_payload },
)

-- `MockConnection::write`
abbrev pub write_mock : Text → MockConnection → MockConnection
write_mock s conn = record conn { write_payload = conn.write_payload ++ s }

-- `MockConnection::close`
abbrev pub close_mock : MockConnection → MockConnection
close_mock conn = record conn { closed = true }

-- `MockConnection::is_closed`, `remote_ip` and `written`
abbrev is_closed_mock : MockConnection → Bool
is_closed_mock conn = conn.closed

abbrev remote_ip_mock : MockConnection → ℕ
remote_ip_mock conn = conn.mock_remote_ip

abbrev written : MockConnection → Text
written conn = conn.write_payload

-- `std::reverse`
unfoldable pub reverse {ℓ} : {A : Type ℓ} → List A → List A
reverse [] = []
reverse (x ∷ xs) = reverse xs ++ x ∷ []

-- `at(size() - 1)` and `pop_back`, of a vector that is not empty.
unfoldable pub pop_last {ℓ} : {A : Type ℓ} → List A → Option (A × List A)
pop_last [] = none
pop_last (x ∷ xs) = elim (pop_last xs) [ none ↦ some (x, []) | some (y, ys) ↦ some (y, x ∷ ys) ]

-- `MockListener::MockListener`; the listener is its vector.
unfoldable pub mock_listener {ℓ} : {A : Type ℓ} → List A → List A
unfolding reverse
mock_listener connections = reverse connections

-- `MockListener::accept`
unfoldable pub accept_mock {ℓ} : {A : Type ℓ} → List A → Result A × List A
unfolding pop_last
accept_mock connections = elim (pop_last connections) [
  | none ↦ (throw listener_error, connections)
  | some (conn, others) ↦ (ok conn, others)
]

pub record MockHttpRequestHandler : Type 0 where
  pub response_payload : HttpResponse
  pub request_copies : List HttpRequest

-- `MockHttpRequestHandler::handle_request`
abbrev pub handle_request_mock :
    HttpRequest → MockHttpRequestHandler → HttpResponse × MockHttpRequestHandler
handle_request_mock request mock =
    (mock.response_payload, record mock { request_copies = mock.request_copies ++ request ∷ [] })

abbrev mock_handler : HttpResponse → MockHttpRequestHandler
mock_handler response = record { response_payload = response; request_copies = [] }

-- `MockHttpRequestHandler::requests`
abbrev requests : MockHttpRequestHandler → List HttpRequest
requests mock = mock.request_copies

-- `MockFile`, of which the accessors give what it was made with.
abbrev mock_file : Bool → Text → ℕ → File
mock_file world_readable contents last_modified = record {
  world_readable = world_readable;
  file_contents = contents;
  last_modified = last_modified;
}

-- `count(key) == 0`, and `at(key)`.
unfoldable pub at_key {ℓ} : {A : Type ℓ} → Text → List (Text × A) → Option A
at_key key [] = none
at_key key ((k, a) ∷ entries) =
    let rest = at_key key entries in if text_eq k key then some a else rest

-- `MockFileRepository::get_file`
unfoldable pub get_file_mock : List (Text × File) → Text → Option File
unfolding at_key
get_file_mock mock_files path = at_key path mock_files

-- `MockDnsClient::lookup`
unfoldable pub lookup_mock : List (Text × List ℕ) → Text → Result (List ℕ)
unfolding at_key
lookup_mock mock_results domain = elim (at_key domain mock_results) [
  | none ↦ ok []
  | some ips ↦ ok ips
]

-- `MockRequestFilter::allow_request`
unfoldable pub allow_request_mock : List (HttpRequest × Bool) → HttpRequest → Bool
unfolding request_eq
allow_request_mock [] request = true
allow_request_mock ((r, allowed) ∷ mock_results) request =
    let rest = allow_request_mock mock_results request in
    if request_eq r request then allowed else rest
