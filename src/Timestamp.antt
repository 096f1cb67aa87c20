-- ===== src/Timestamp.antt =====
-- scamp/timestamp.go: the time of day that an announcement bears. The reading and the printing of a float
-- are given; so is the time, in seconds and microseconds, which are printed one behind the other.
use scamp_go.Base.{ℕ, ◌∷◌, ◌++◌, Option, Bytes}
use scamp_go.Base.Decimal.{format_int}

-- `strconv.ParseFloat`, and `%f`.
pub record Floats {ℓ} : Type (ℓ + 1) where
  pub Float : Type ℓ
  pub parse_float : Bytes → Option Float
  pub format_float : Float → Bytes

-- The text of a time: the microseconds are not padded to six digits.
unfoldable pub time_text : ℕ → ℕ → Bytes
time_text sec usec = format_int sec ++ b'.' ∷ format_int usec

module _ {ℓ} (f : Floats {ℓ}) where
  -- `getTimeOfDay`: `none` is its error.
  unfoldable pub get_time_of_day : ℕ → ℕ → Option f.Float
  get_time_of_day sec usec = f.parse_float (time_text sec usec)

  -- `highResTimestamp.MarshalJSON`.
  unfoldable pub marshal_timestamp : f.Float → Bytes
  marshal_timestamp ts = f.format_float ts
