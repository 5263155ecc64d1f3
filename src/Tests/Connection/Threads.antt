-- ===== src/Tests/Connection/Threads.antt =====
-- Threads on examples.
use cse124_httpserver.Base.{◌≡◌, refl, [], ◌∷◌, ok, find, text_eq}
use cse124_httpserver.Util.{pop_n_sstream}
use cse124_httpserver.Http.{
  has_header, parse_request_frame, serialize, pack_response, bad_request_response,
}
use cse124_httpserver.Connection.{Connection}
use cse124_httpserver.Connection.Threads.{running, ended, round, Spawned, starts, spawns, rounds}
use cse124_httpserver.Tests.Connection.{receives, lines, namelessly, answers_not_found}

abbrev pub asks_namelessly : Connection
asks_namelessly = receives namelessly

abbrev pub refused_namelessly : Connection
refused_namelessly = record asks_namelessly {
  reads = [];
  written = serialize (pack_response bad_request_response);
}

pub refuses : round answers_not_found asks_namelessly ≡ ended (ok tt, refused_namelessly)
unfolding round find pop_n_sstream parse_request_frame text_eq has_header
refuses = refl

-- Two threads, of which the first has taken a turn.
two_threads : Spawned answers_not_found (
    (asks_namelessly, ended (ok tt, refused_namelessly))
    ∷ (receives lines, running (receives lines))
    ∷ [])
two_threads = rw (← refuses) (
    rounds [] ((receives lines, running (receives lines)) ∷ []) asks_namelessly asks_namelessly
      (spawns _ (receives lines) (spawns [] asks_namelessly starts)))
