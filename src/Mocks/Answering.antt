-- ===== src/Mocks/Answering.antt =====
-- A MockListener gives its connections in order; a MockRequestFilter answers by the first request
-- that is equal.
use cse124_httpserver.Base.{
  ℕ, zero, suc, ◌≡◌, refl, ap, Bool, true, false, some, List, [], ◌∷◌, ◌++◌, All, map, length, ◌+◌,
  Result, ok, throw, listener_error, arith,
}
use cse124_httpserver.Http.{HttpRequest}
use cse124_httpserver.Http.Equality.{request_eq}
use cse124_httpserver.Mocks.{reverse, pop_last, mock_listener, accept_mock, allow_request_mock}

-- The outcomes of so many calls of `accept`.
pub accepts_of {ℓ} : {A : Type ℓ} → ℕ → List A → List (Result A)
unfolding accept_mock
accepts_of zero connections = []
accepts_of (suc n) connections =
    (accept_mock connections).0 ∷ accepts_of n (accept_mock connections).1

pop_last-append {ℓ} : {A : Type ℓ} (xs : List A) (x : A) → pop_last (xs ++ x ∷ []) ≡ some (x, xs)
unfolding pop_last
pop_last-append [] x = refl
pop_last-append (y ∷ xs) x = rw (pop_last-append xs x) refl

abbrev pub refused {ℓ} : {A : Type ℓ} → ℕ → List (Result A)
refused zero = []
refused (suc n) = throw listener_error ∷ refused n

accepts_of-nil {ℓ} : {A : Type ℓ} (n : ℕ) → accepts_of {A = A} n [] ≡ refused n
unfolding accepts_of accept_mock pop_last
accepts_of-nil zero = refl
accepts_of-nil (suc n) = ap (◌∷◌ (throw listener_error)) (accepts_of-nil n)

accept_mock-reverse {ℓ} :
    {A : Type ℓ} (c : A) (cs : List A) → accept_mock (reverse (c ∷ cs)) ≡ (ok c, reverse cs)
unfolding accept_mock reverse
accept_mock-reverse c cs = rw (pop_last-append (reverse cs) c, accept_mock) refl

accepts_of-reverse {ℓ} :
    {A : Type ℓ} (n k : ℕ) (cs : List A)
    → k ≡ length cs + n
    → accepts_of k (reverse cs) ≡ map (λ c. ok c) cs ++ refused n
unfolding accepts_of
accepts_of-reverse n k [] e =
    let same : k ≡ n = omega arith in unfold reverse in rw same (accepts_of-nil n)
accepts_of-reverse n zero (c ∷ cs) e = absurd (omega arith)
accepts_of-reverse n (suc k) (c ∷ cs) e =
    rw (accept_mock-reverse c cs) (ap (◌∷◌ (ok c)) (accepts_of-reverse n k cs (omega arith)))

-- A MockListener accepts the connections it was made with, in their order, and every later call of
-- `accept` throws ListenerError.
accepts_of-mock_listener {ℓ} :
    {A : Type ℓ} (n : ℕ) (connections : List A)
    → accepts_of (length connections + n) (mock_listener connections)
      ≡ map (λ c. ok c) connections ++ refused n
unfolding mock_listener
accepts_of-mock_listener n connections =
    accepts_of-reverse n (length connections + n) connections refl

-- If no earlier request of a MockRequestFilter's list equals the request, and the next does, the
-- filter answers as that pair says, whatever follows.
pub allow_request_mock-append :
    (earlier later : List (HttpRequest × Bool)) (r request : HttpRequest) (allowed : Bool)
    → All (λ x. request_eq x.0 request ≡ false) earlier
    → request_eq r request ≡ true
    → allow_request_mock (earlier ++ (r, allowed) ∷ later) request ≡ allowed
unfolding allow_request_mock
allow_request_mock-append [] later r request allowed h e = rw e refl
allow_request_mock-append ((r', b) ∷ earlier) later r request allowed (differs, h) e =
    rw differs (allow_request_mock-append earlier later r request allowed h e)
