-- ===== src/Json.antt =====
-- encoding/json on structs of scalar fields: the values that a field may hold, and how one of them is
-- read into a field of each Go type that the program uses. What strconv, time and google/uuid make of
-- a literal is an argument.
pub mod Fields
use investment_engine.Prelude.{
  All, ℤ, pos, negsuc, ◌^◌, ◌<◌, String, Bool, Text, List, Option, none, some, ◌≡◌,
}
use investment_engine.GoError.{GoError, new}
use investment_engine.Result.{Result, ok, err}
use investment_engine.Float64.{Float64}
use investment_engine.Order.Model.{Uuid, Instant}

-- A number is its literal; `nested` stands for an object or an array, which no scalar field takes.
pub data Json : Type 0 where
  null : Json
  boolean : Bool → Json
  number : Text → Json
  text : Text → Json
  nested : Json

abbrev pub Object : Type 0
Object = List (String × Json)

pub record Literals : Type 0 where
  pub write_int : ℤ → Text
  pub read_int : Text → Result ℤ
  pub write_float : Float64 → Result Text
  pub read_float : Text → Result Float64
  pub write_time : Instant → Result Text
  pub read_time : Text → Result Instant
  -- Bytes that are not UTF-8 are replaced.
  pub write_text : Text → Text
  pub write_uuid : Uuid → Text
  pub read_uuid : Text → Result Uuid

-- What the 64 bits of an int hold.
abbrev pub IsInt64 : ℤ → Type 0
IsInt64 (pos n) = n < 2 ^ 63
IsInt64 (negsuc n) = n < 2 ^ 63

-- A literal that was written is read back; a float or a time may have none (NaN, the year 10000).
pub record IsLiterals (l : Literals) : Type 0 where
  pub int : (n : ℤ) → IsInt64 n → l.read_int (l.write_int n) ≡ ok n
  pub float : (x : Float64) (s : Text) → l.write_float x ≡ ok s → l.read_float s ≡ ok x
  pub time : (t : Instant) (s : Text) → l.write_time t ≡ ok s → l.read_time s ≡ ok t
  pub ascii : (s : Text) → All (λ c. c < 128) s → l.write_text s ≡ s
  pub uuid : (u : Uuid) → u < 2 ^ 128 → l.read_uuid (l.write_uuid u) ≡ ok u

abbrev pub mismatch : GoError
mismatch = new "json: cannot unmarshal %s into Go struct field %s of type %s"

-- Into a field of a type that is not a pointer, `null` changes nothing.
unfoldable pub put_text : Json → Text → Result Text
put_text null old = ok old
put_text (text s) old = ok s
put_text _ old = err mismatch

module _ (l : Literals) where
  unfoldable pub put_int : Json → ℤ → Result ℤ
  put_int null old = ok old
  put_int (number s) old = l.read_int s
  put_int _ old = err mismatch

  unfoldable pub put_uuid : Json → Uuid → Result Uuid
  put_uuid null old = ok old
  put_uuid (text s) old = l.read_uuid s
  put_uuid _ old = err mismatch

  unfoldable pub put_time : Json → Instant → Result Instant
  put_time null old = ok old
  put_time (text s) old = l.read_time s
  put_time _ old = err mismatch

  -- Into a pointer, which `null` makes nil.
  abbrev pub pointer_to : Result Float64 → Result (Option Float64)
  pointer_to (ok x) = ok (some x)
  pointer_to (err e) = err e

  unfoldable pub put_float_pointer : Json → Result (Option Float64)
  put_float_pointer null = ok none
  put_float_pointer (number s) = pointer_to (l.read_float s)
  put_float_pointer _ = err mismatch
