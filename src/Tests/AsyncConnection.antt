-- ===== src/Tests/AsyncConnection.antt =====
-- Writing to a socket that takes a message in pieces, and reading a text that comes in pieces.
use cse124_httpserver.Base.{◌≡◌, refl, arith, true, false, none, some, find_first, [], ◌∷◌, codes}
use cse124_httpserver.AsyncConnection.{sent, WritePollable, try_write}
use cse124_httpserver.Connection.{Connection, read_until}
use cse124_httpserver.Connection.Chunks.{chunks}
use cse124_httpserver.AsyncConnection.Reading.Blocking.{Agree, read_until-Agree}

abbrev greeting : WritePollable
greeting = record {
  message = codes "hello";
  total_sent = 2;
  done = false;
  started = 0;
  wire = codes "<he";
}

abbrev greeted : WritePollable
greeted = record greeting { total_sent = 5; wire = codes "<hello" }

greets : try_write (sent 2 ∷ sent 1 ∷ []) greeting ≡ (true, greeted)
unfolding try_write
greets = refl

abbrev receiving : Connection
receiving = record {
  reads = chunks (codes "cat--" ∷ []);
  buffer = codes "dog-";
  sends = [];
  written = [];
  peer = 7;
}

not_yet : find_first (codes "--") (codes "dog-") ≡ none
unfolding find_first
not_yet = refl

at_last : find_first (codes "--") (codes "dog-cat--") ≡ some 7
unfolding find_first
at_last = refl

read_until-Agree_example :
    Agree (codes "--") receiving (codes "cat--" ∷ []) (read_until (codes "--") receiving)
read_until-Agree_example =
    read_until-Agree (codes "--") receiving (codes "cat--" ∷ []) 7 refl
      (((λ e. cc), omega arith), tt) not_yet at_last
