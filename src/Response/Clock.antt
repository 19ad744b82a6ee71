-- ===== src/Response/Clock.antt =====
-- The texts that are made of the time: `get_timestamp_str` of srcs/Utils/Utils.cpp and
-- `generate_session_id` of srcs/SessionCookie/SessionCookieHandler.cpp. The clock, `localtime` and the
-- first number that `rand` gives behind `srand` are arguments.
use webserv_team.Base.{ℕ, ◌+◌, ◌%◌, ◌∷◌, ◌++◌, ltb, if◌then◌else◌, Bytes, codes}
use webserv_team.Response.{to_string}

-- `struct tm`: years from 1900 on, months from 0 on.
pub record Tm : Type 0 where
  pub tm_year : ℕ
  pub tm_mon : ℕ
  pub tm_mday : ℕ
  pub tm_hour : ℕ
  pub tm_min : ℕ
  pub tm_sec : ℕ

-- `setw(2)` with `setfill('0')`, and `%m` and its like of `strftime`.
unfoldable pub two_digits : ℕ → Bytes
two_digits n = if ltb n 10 then b'0' ∷ to_string n else to_string n

-- `%Y%m%d%H%M%S`.
unfoldable pub date_and_time : Tm → Bytes
date_and_time t =
    to_string (t.tm_year + 1900)
    ++ two_digits (t.tm_mon + 1)
    ++ two_digits t.tm_mday
    ++ two_digits t.tm_hour
    ++ two_digits t.tm_min
    ++ two_digits t.tm_sec

-- The seconds are written twice.
unfoldable pub get_timestamp_str : (ℕ → Tm) → ℕ → Bytes
get_timestamp_str localtime now = date_and_time (localtime now) ++ two_digits (localtime now).tm_sec

unfoldable pub generate_session_id : (ℕ → Tm) → (ℕ → ℕ) → ℕ → Bytes
generate_session_id localtime rand now =
    date_and_time (localtime now) ++ codes "_" ++ to_string (rand now % 10000)
