-- ===== src/Order/Wire.antt =====
-- The wire contract of `order.created` (internal/order/events.go): what encoding/json makes of the
-- struct tags of `OrderCreatedEvent`, both ways.
pub mod Missing
pub mod RoundTrip
use package.text.Mathlib.Text.{◌==◌ as str_eq}
use investment_engine.Prelude.{
  ◌≡◌, ◌<◌, ◌^◌, ℤ, pos, String, Bool, true, false, Option, none, some, List, [], ◌∷◌, ◌++◌,
  if◌then◌else◌,
}
use investment_engine.Result.{Result, ok, err, ◌>>=◌}
use investment_engine.Float64.{Float64}
use investment_engine.Order.Model.{uuid_nil}
use investment_engine.Order.Event.{OrderCreatedEvent}
use investment_engine.Json.Fields.{read_fields}
use investment_engine.Json.{
  IsInt64, Json, null, number, text, Object, Literals, put_text, put_int, put_uuid, put_time,
  put_float_pointer,
}

pub data EventField : Type 0 where
  order_id user_id asset_symbol quantity side execution_type limit_price created_at : EventField

-- The struct tags.
abbrev pub names : List (String × EventField)
names =
    ("order_id", order_id)
    ∷ ("user_id", user_id)
    ∷ ("asset_symbol", asset_symbol)
    ∷ ("quantity", quantity)
    ∷ ("side", side)
    ∷ ("execution_type", execution_type)
    ∷ ("limit_price", limit_price)
    ∷ ("created_at", created_at)
    ∷ []

-- The zero value of the struct.
abbrev pub no_event : OrderCreatedEvent
no_event = record {
  order_id = uuid_nil;
  user_id = uuid_nil;
  asset_symbol = [];
  quantity = pos 0;
  side = [];
  execution_type = [];
  limit_price = none;
  created_at = 0;
}

module _ (l : Literals) where
  unfoldable pub store : EventField → Json → OrderCreatedEvent → Result OrderCreatedEvent
  store order_id v e = put_uuid l v e.order_id >>= λ x. ok (record e { order_id = x })
  store user_id v e = put_uuid l v e.user_id >>= λ x. ok (record e { user_id = x })
  store asset_symbol v e = put_text v e.asset_symbol >>= λ x. ok (record e { asset_symbol = x })
  store quantity v e = put_int l v e.quantity >>= λ x. ok (record e { quantity = x })
  store side v e = put_text v e.side >>= λ x. ok (record e { side = x })
  store execution_type v e =
      put_text v e.execution_type >>= λ x. ok (record e { execution_type = x })
  store limit_price v e = put_float_pointer l v >>= λ x. ok (record e { limit_price = x })
  store created_at v e = put_time l v e.created_at >>= λ x. ok (record e { created_at = x })

  -- json.Unmarshal into an event.
  unfoldable pub unmarshal_event : (String → String → Bool) → Object → Result OrderCreatedEvent
  unfolding store
  unmarshal_event folds object = read_fields store folds names object no_event

  -- `omitempty`
  abbrev pub limit_price_members : Option Float64 → Result Object
  limit_price_members none = ok []
  limit_price_members (some x) = l.write_float x >>= λ s. ok (("limit_price", number s) ∷ [])

  -- json.Marshal of an event.
  unfoldable pub marshal_event : OrderCreatedEvent → Result Object
  marshal_event e = limit_price_members e.limit_price >>= λ price.
      l.write_time e.created_at >>= λ time. ok (
        ("order_id", text (l.write_uuid e.order_id))
        ∷ ("user_id", text (l.write_uuid e.user_id))
        ∷ ("asset_symbol", text (l.write_text e.asset_symbol))
        ∷ ("quantity", number (l.write_int e.quantity))
        ∷ ("side", text (l.write_text e.side))
        ∷ ("execution_type", text (l.write_text e.execution_type))
        ∷ (price ++ ("created_at", text time) ∷ []))

-- An event that JSON can carry as it is: identifiers of 16 bytes, a quantity of 64 bits, texts that
-- are UTF-8.
pub record IsWritable (l : Literals) (e : OrderCreatedEvent) : Type 0 where
  pub order_id : e.order_id < 2 ^ 128
  pub user_id : e.user_id < 2 ^ 128
  pub asset_symbol : l.write_text e.asset_symbol ≡ e.asset_symbol
  pub quantity : IsInt64 e.quantity
  pub side : l.write_text e.side ≡ e.side
  pub execution_type : l.write_text e.execution_type ≡ e.execution_type
