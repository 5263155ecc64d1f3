-- ===== src/Util/System.antt =====
-- util.cpp: what asks the system. `strerror_r`, `inet_ntop` and `timegm` are parameters; the first two
-- give none where they fail. A time is a number of seconds, an address its 32-bit value.
use cse124_httpserver.Base.{
  ℕ, ◌+◌, ◌-◌, Bool, ℤ, pos, negsuc, Option, none, some, [], ◌++◌, ltb, ◌==◌, if◌then◌else◌, Text,
  Result, ok, throw, runtime_error,
}

-- `errno_message`, with what `strerror_r` leaves in the buffer.
abbrev errno_message : Option Text → Text → Text
errno_message none prefix = prefix ++ []
errno_message (some message) prefix = prefix ++ message

-- `format_ip`
unfoldable format_ip : (ℕ → Option Text) → ℕ → Result Text
format_ip inet_ntop address = elim (inet_ntop address) [
  | none ↦ throw runtime_error
  | some text ↦ ok text
]

-- `operator==` of addresses
abbrev in_addr_eq : ℕ → ℕ → Bool
in_addr_eq lhs rhs = lhs == rhs

-- `-` of an `int` and a constant.
abbrev minus : ℤ → ℕ → ℤ
minus (pos n) m = if ltb n m then negsuc (m - n - 1) else pos (n - m)
minus (negsuc n) m = negsuc (n + m)

-- The fields of `struct tm` that are set.
pub record Tm : Type 0 where
  pub tm_year : ℤ
  pub tm_mon : ℤ
  pub tm_mday : ℤ
  pub tm_hour : ℤ
  pub tm_min : ℤ
  pub tm_sec : ℤ

-- The test of what `timegm` gives, and `from_time_t`.
abbrev time_or_throw : ℤ → Result ℕ
time_or_throw (pos t) = ok t
time_or_throw (negsuc _) = throw runtime_error

-- `make_time_point`, whose arguments are small enough for `int`.
unfoldable make_time_point : (Tm → ℤ) → ℤ → ℤ → ℤ → ℤ → ℤ → ℤ → Result ℕ
make_time_point timegm years months days hours minutes seconds = time_or_throw (
    timegm (record {
      tm_year = minus years 1900;
      tm_mon = minus months 1;
      tm_mday = days;
      tm_hour = hours;
      tm_min = minutes;
      tm_sec = seconds;
    }))
