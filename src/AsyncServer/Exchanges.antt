-- ===== src/AsyncServer/Exchanges.antt =====
-- The frames that a connection received, and the replies to them.
use cse124_httpserver.Base.{
  ℕ, ◌≡◌, sym, ap, ◌∙◌, none, [], ◌∷◌, ◌++◌, append_assoc, append-nil, All, Text, Result,
  find_first,
}
use cse124_httpserver.Http.{HttpRequest, HttpResponse, serialize, pack_response}
use cse124_httpserver.Connection.{crlfcrlf}
use cse124_httpserver.Connection.Frames.{Exchanges, frames_text, replies_text, Continued, Ended}
use cse124_httpserver.AsyncServer.{AsyncHttpConnection}

pub frames_text-snoc :
    (xs : Exchanges) (text : Text) (response : HttpResponse) (s : Text)
    → frames_text (xs ++ (text, response) ∷ []) ++ s ≡ frames_text xs ++ (text ++ (crlfcrlf ++ s))
frames_text-snoc [] text response s = append_assoc text crlfcrlf s
frames_text-snoc ((first, reply) ∷ xs) text response s =
    append_assoc first (crlfcrlf ++ frames_text (xs ++ (text, response) ∷ [])) s
    ∙ ap (λ t. first ++ (crlfcrlf ++ t)) (frames_text-snoc xs text response s)
    ∙ sym (append_assoc first (crlfcrlf ++ frames_text xs) (text ++ (crlfcrlf ++ s)))

pub replies_text-snoc :
    (xs : Exchanges) (text : Text) (response : HttpResponse)
    → replies_text (xs ++ (text, response) ∷ [])
      ≡ replies_text xs ++ serialize (pack_response response)
replies_text-snoc [] text response = append-nil (serialize (pack_response response))
replies_text-snoc ((first, reply) ∷ xs) text response =
    ap (◌++◌ (serialize (pack_response reply))) (replies_text-snoc xs text response)
    ∙ sym (
        append_assoc (serialize (pack_response reply)) (replies_text xs)
          (serialize (pack_response response)))

-- The text received is frames and a rest; what is written is the start of the replies to them.
abbrev pub Settled : (HttpRequest → Result HttpResponse) → ℕ → AsyncHttpConnection → Text → Type 0
Settled handler peer conn input =
    (xs : Exchanges) × (rest : Text) × (unsent : Text) × (input ≡ frames_text xs ++ rest)
    × (conn.wire ++ unsent ≡ replies_text xs)
    × Ended handler peer xs

-- The text received is frames and the buffer, in which there is none; the replies to them are
-- written.
abbrev pub Waiting : (HttpRequest → Result HttpResponse) → ℕ → AsyncHttpConnection → Text → Type 0
Waiting handler peer conn input =
    (xs : Exchanges) × (input ≡ frames_text xs ++ conn.buffer)
    × (find_first crlfcrlf conn.buffer ≡ none)
    × (conn.wire ≡ replies_text xs)
    × All (Continued handler peer) xs
