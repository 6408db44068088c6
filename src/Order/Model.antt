-- ===== src/Order/Model.antt =====
-- internal/order/model.go: sides, execution types and statuses are strings, of which the
-- constants below are the valid ones. An id is a UUID read as a 128-bit number (uuid.Nil is 0), and
-- a time is the number of nanoseconds since Go's zero time, so that `IsZero` tests for 0.
use investment_engine.Prelude.{
  ℕ, ℤ, Bool, true, ◌||◌, Option, ◌≡◌, ◌⊎◌, Text, codes, text_eq, texts,
}
use investment_engine.Float64.{Float64}

abbrev pub Uuid : Type 0
Uuid = ℕ

abbrev pub uuid_nil : Uuid
uuid_nil = 0

abbrev pub Instant : Type 0
Instant = ℕ

abbrev pub Side : Type 0
Side = Text

abbrev pub side_buy : Side
side_buy = codes "BUY"

abbrev pub side_sell : Side
side_sell = codes "SELL"

abbrev pub ExecutionType : Type 0
ExecutionType = Text

abbrev pub execution_market : ExecutionType
execution_market = codes "MARKET"

abbrev pub execution_limit : ExecutionType
execution_limit = codes "LIMIT"

abbrev pub Status : Type 0
Status = Text

abbrev pub status_pending : Status
status_pending = codes "PENDING"

abbrev pub status_executed : Status
status_executed = codes "EXECUTED"

abbrev pub status_cancelled : Status
status_cancelled = codes "CANCELLED"

abbrev pub status_rejected : Status
status_rejected = codes "REJECTED"

pub record Order : Type 0 where
  pub id : Uuid
  pub user_id : Uuid
  pub asset_symbol : Text
  pub quantity : ℤ
  pub side : Side
  pub execution_type : ExecutionType
  pub limit_price : Option Float64
  pub status : Status
  pub created_at : Instant

unfoldable pub is_valid_status : Status → Bool
is_valid_status s =
    text_eq s status_pending
    || text_eq s status_executed
    || text_eq s status_cancelled
    || text_eq s status_rejected

unfoldable pub is_valid_side : Side → Bool
is_valid_side s = text_eq s side_buy || text_eq s side_sell

unfoldable pub is_valid_execution_type : ExecutionType → Bool
is_valid_execution_type e = text_eq e execution_market || text_eq e execution_limit

-- A valid side is one of the two constants.
pub is_valid_side_sound : (s : Side) → is_valid_side s ≡ true → (s ≡ side_buy) ⊎ (s ≡ side_sell)
unfolding is_valid_side
is_valid_side_sound s h = grind texts

pub is_valid_execution_type_sound :
    (e : ExecutionType)
    → is_valid_execution_type e ≡ true
    → (e ≡ execution_market) ⊎ (e ≡ execution_limit)
unfolding is_valid_execution_type
is_valid_execution_type_sound e h = grind texts
