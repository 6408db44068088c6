-- ===== src/System/Wire.antt =====
-- The event of a created order on its way from the publisher (internal/order/events.go) to the decoder
-- of the consumer (internal/execution/handler.go).
use investment_engine.Prelude.{
  ◌≢◌, ◌∙◌, ℕ, ℤ, pos, negsuc, ◌<◌, ◌^◌, ◌≡◌, [], ◌∷◌, arith, true, All, Text, inl, inr, String,
  Bool,
}
use investment_engine.Result.{ok}
use investment_engine.Strings.{is_digit, is_upper_letter}
use investment_engine.Json.{Object, Literals, IsLiterals, IsInt64}
use investment_engine.Http.{simulated_user_id}
use investment_engine.Order.Model.{
  Uuid, Instant, is_valid_side, is_valid_side_sound, is_valid_execution_type,
  is_valid_execution_type_sound,
}
use investment_engine.Order.Event.{new_order_created_event}
use investment_engine.Order.Wire.{IsWritable, marshal_event, unmarshal_event}
use investment_engine.Order.Wire.RoundTrip.{unmarshal_event-marshal_event}
use investment_engine.GoError.{GoError}
use investment_engine.Order.Listing.{ListFaults}
use investment_engine.Order.Store.{Db, Reply, fits_integer}
use investment_engine.Order.Store.Create.{create-ok}
use investment_engine.Order.CreateOrder.Checks.{IsAccepted-of_no_errors}
use investment_engine.Order.CreateOrder.Laws.{IsCreated, create_order-IsCreated}
use investment_engine.Order.PostgresStore.{postgres_order_store}
use investment_engine.System.{silent}
use investment_engine.Float64.{Float64}
use investment_engine.Order.Model.{uuid_nil}
use investment_engine.Order.Store.{count_execution_ids}
use investment_engine.Order.Store.Invariant.{IsConsistent, executed}
use investment_engine.Order.Store.Execute.{IsHealthy}
use investment_engine.Execution.Consumer.{Libraries, Delivery, Counter, ack, increment, process}
use investment_engine.System.{Conditions, circumstances}
use investment_engine.System.RoundTrip.{answered, created_order_executes}
use investment_engine.Order.CreateOrder.{Decoded, matches_asset_symbol_pattern, new_order}

abbrev IsAscii : Text → Type 0
IsAscii = All (λ c. c < 128)

symbol-IsAscii : (s : Text) → matches_asset_symbol_pattern s ≡ true → IsAscii s
unfolding matches_asset_symbol_pattern is_digit is_upper_letter
symbol-IsAscii (a ∷ b ∷ c ∷ d ∷ e ∷ []) h = ground arith
symbol-IsAscii (a ∷ b ∷ c ∷ d ∷ e ∷ f ∷ []) h = ground arith
symbol-IsAscii s h = absurd cc

side-IsAscii : (s : Text) → is_valid_side s ≡ true → IsAscii s
side-IsAscii s h = elim (is_valid_side_sound s h) [
  | inl e ↦ rw e (omega arith)
  | inr e ↦ rw e (omega arith)
]

execution_type-IsAscii : (s : Text) → is_valid_execution_type s ≡ true → IsAscii s
execution_type-IsAscii s h = elim (is_valid_execution_type_sound s h) [
  | inl e ↦ rw e (omega arith)
  | inr e ↦ rw e (omega arith)
]

fits_integer-IsInt64 : (n : ℤ) → fits_integer n ≡ true → IsInt64 n
unfolding fits_integer
fits_integer-IsInt64 (pos n) h = ground arith
fits_integer-IsInt64 (negsuc n) h = ground arith

module _ (l : Literals) (laws : IsLiterals l) (upper : ℕ → ℕ) (faults : ListFaults) (reply : Reply)
    (cause : GoError) (now : Instant) (id : Uuid) (db : Db) (decoded : Decoded)
    (sized : id < 2 ^ 128)
    (created : (answered upper faults reply cause now id db decoded).0.status ≡ 201) where
  abbrev is_created :
      IsCreated upper
        (postgres_order_store faults reply cause now)
        silent
        id
        (record { store = db; publisher = tt })
        decoded
        (answered upper faults reply cause now id db decoded)
  is_created =
      create_order-IsCreated upper (postgres_order_store faults reply cause now) silent id
        (record { store = db; publisher = tt }) decoded created

  event-IsWritable : IsWritable l (new_order_created_event is_created.created)
  unfolding new_order new_order_created_event
  event-IsWritable =
      let o = new_order upper id simulated_user_id is_created.req in
      let (same, _, _, fits) =
        create-ok reply cause now o db is_created.created is_created.stored in
      let a = IsAccepted-of_no_errors upper is_created.req is_created.no_errors in
      rw same record {
        order_id = sized;
        user_id = omega arith;
        asset_symbol = laws.ascii _ (symbol-IsAscii _ a.symbol_format);
        quantity = fits_integer-IsInt64 _ fits;
        side = laws.ascii _ (side-IsAscii _ a.side);
        execution_type = laws.ascii _ (execution_type-IsAscii _ a.execution_type);
      }

  -- After `CreateOrder` has answered 201, with an id of 16 bytes, the JSON that json.Marshal makes of
  -- the event of the created order is read back by json.Unmarshal as exactly this event, whichever
  -- names the decoder takes for equal up to case: no accepted request makes an event that its JSON
  -- cannot carry.
  pub created_order_reads_back :
      (folds : String → String → Bool) (object : Object)
      → marshal_event l (new_order_created_event is_created.created) ≡ ok object
      → unmarshal_event l folds object ≡ ok (new_order_created_event is_created.created)
  created_order_reads_back folds object =
      unmarshal_event-marshal_event l laws folds (new_order_created_event is_created.created) object
        event-IsWritable

  -- After `CreateOrder` has answered 201, on consistent tables and with an id of 16 bytes that is not
  -- nil, a delivery executes the created order, if its body holds the JSON that the publisher's
  -- json.Marshal has made of the event of this order, a price is quoted for its symbol, the driver fails
  -- nowhere and the drawn execution id is new: the order becomes EXECUTED with one execution of its
  -- quantity at that price, and the delivery is acked and counted as a success.
  pub written_order_executes :
      (c : Conditions) (lib : Libraries) (d : Delivery) (m : Counter) (price : Float64)
      (folds : String → String → Bool) (object : Object)
      → IsConsistent db
      → id ≢ uuid_nil
      → IsHealthy c.faults
      → count_execution_ids c.execution_id db.executions ≡ 0
      → marshal_event l (new_order_created_event is_created.created) ≡ ok object
      → lib.unmarshal d.body ≡ unmarshal_event l folds object
      → c.prices is_created.created.asset_symbol ≡ ok price
      → process lib (circumstances c) d (record {
        store = (answered upper faults reply cause now id db decoded).1.store;
        messages_processed = m;
      })
        ≡ (
          record {
            store =
                executed c.execution_id c.now is_created.created.id price
                  is_created.created.quantity
                  (answered upper faults reply cause now id db decoded).1.store;
            messages_processed = increment "success" m;
          },
          ack ∷ [],
        )
  written_order_executes c lib d m price folds object consistent known healthy fresh written reads =
      created_order_executes upper faults reply cause now id db decoded created c lib d m price
        consistent known healthy fresh (reads ∙ created_order_reads_back folds object written)
