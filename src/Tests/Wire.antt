-- ===== src/Tests/Wire.antt =====
-- The wire form of an event at concrete inputs.
use investment_engine.Prelude.{
  ℕ, ℤ, pos, negsuc, String, Bool, false, [], ◌∷◌, ◌≡◌, ◌∙◌, ap, refl, arith, Text, codes,
}
use investment_engine.GoError.{new}
use investment_engine.Result.{Result, ok, err}
use investment_engine.Json.{number, text, Object, Literals, IsLiterals}
use investment_engine.Order.Event.{new_order_created_event}
use investment_engine.Order.Model.{Order, side_buy, execution_market}
use investment_engine.Order.Store.{empty_db, done}
use investment_engine.Order.Listing.Pages.{healthy}
use investment_engine.Order.Store.Create.{create-ok}
use investment_engine.Order.PostgresStore.{postgres_order_store}
use investment_engine.Http.{simulated_user_id}
use investment_engine.Order.CreateOrder.{CreateOrderRequest, request, new_order, normalized_symbol}
use investment_engine.Order.CreateOrder.Laws.{create_order-IsCreated}
use investment_engine.Strings.{to_upper, to_upper_rune, trim_space, trim_left, is_space}
use investment_engine.Order.Wire.{quantity, marshal_event, unmarshal_event}
use investment_engine.Json.Fields.{IsMissing, field_of}
use investment_engine.Order.Wire.{names}
use investment_engine.Execution.Consumer.{ack, Libraries, process, increment, reject}
use investment_engine.Execution.Consumer.Incomplete.{process-missing}
use investment_engine.Order.Store.Invariant.{executed, empty_db-IsConsistent}
use investment_engine.System.{silent, circumstances}
use investment_engine.System.Wire.{created_order_reads_back, written_order_executes}
use investment_engine.Tests.Data.{
  healthy_faults-IsHealthy, no_messages, sample_price, upper, sample_request, libraries, conditions,
  delivery, start,
}
use investment_engine.Tests.System.{answered, no_execution, begin, created, created_201}

-- Literals of one or two code points.
abbrev read_one : Text → Result ℕ
read_one (n ∷ []) = ok n
read_one _ = err (new "not one code point")

abbrev read_two : Text → Result ℤ
read_two (n ∷ []) = ok (pos n)
read_two (_ ∷ n ∷ []) = ok (negsuc n)
read_two _ = err (new "not two code points")

abbrev write_two : ℤ → Text
write_two (pos n) = n ∷ []
write_two (negsuc n) = 0 ∷ n ∷ []

abbrev pub literals : Literals
literals = record {
  write_int = write_two;
  read_int = read_two;
  write_float = λ x. ok (x ∷ []);
  read_float = read_one;
  write_time = λ x. ok (x ∷ []);
  read_time = read_one;
  write_text = λ s. s;
  write_uuid = λ x. x ∷ [];
  read_uuid = read_one;
}

int_read : (n : ℤ) → read_two (write_two n) ≡ ok n
int_read (pos n) = refl
int_read (negsuc n) = refl

literals-IsLiterals : IsLiterals literals
literals-IsLiterals = record {
  int = λ n _. int_read n;
  float = λ x s h. ground arith;
  time = λ x s h. ground arith;
  ascii = λ s _. refl;
  uuid = λ u _. refl;
}

abbrev pub no_folding : String → String → Bool
no_folding a b = false

abbrev created_object : Object
created_object =
    ("order_id", text (5 ∷ []))
    ∷ ("user_id", text (simulated_user_id ∷ []))
    ∷ ("asset_symbol", text (codes "PETR4"))
    ∷ ("quantity", number (10 ∷ []))
    ∷ ("side", text side_buy)
    ∷ ("execution_type", text execution_market)
    ∷ ("created_at", text (7 ∷ []))
    ∷ []

created_row :
    created ≡ record (new_order upper 5 simulated_user_id sample_request) { created_at = 7 }
created_row =
    let c =
      create_order-IsCreated upper (postgres_order_store healthy done (new "driver") 7) silent 5
        begin (request sample_request) created_201 in
    let asked : c.req ≡ sample_request = cc in
    let (same, _, _, _) =
      create-ok done (new "driver") 7 (new_order upper 5 simulated_user_id c.req) empty_db c.created
        c.stored in
    same
    ∙ ap
        (λ (r : CreateOrderRequest).
          let o : Order = record (new_order upper 5 simulated_user_id r) { created_at = 7 } in o)
        asked

written : marshal_event literals (new_order_created_event created) ≡ ok created_object
written = rw created_row (
    unfold marshal_event new_order_created_event new_order normalized_symbol to_upper to_upper_rune
      trim_space trim_left is_space in
    refl)

created_order_reads_back_example :
    unmarshal_event literals no_folding created_object ≡ ok (new_order_created_event created)
created_order_reads_back_example =
    created_order_reads_back literals literals-IsLiterals upper healthy done (new "driver") 7 5
      empty_db (request sample_request) (omega arith) created_201 no_folding created_object written

-- The body of every delivery is the JSON of this order's event.
abbrev published : Libraries
published = record libraries {
  unmarshal = λ body. unmarshal_event literals no_folding created_object;
}

written_order_executes_example :
    process published
      (circumstances conditions)
      delivery
      (record { store = answered.1.store; messages_processed = no_messages })
    ≡ (
      record {
        store = executed 9 8 created.id sample_price created.quantity answered.1.store;
        messages_processed = increment "success" no_messages;
      },
      ack ∷ [],
    )
written_order_executes_example =
    written_order_executes literals literals-IsLiterals upper healthy done (new "driver") 7 5
      empty_db (request sample_request) (omega arith) created_201 conditions published delivery
      no_messages sample_price no_folding created_object empty_db-IsConsistent (λ e. omega arith)
      healthy_faults-IsHealthy no_execution written refl refl

-- The body has its quantity under a key that is not the tag.
abbrev misspelt : Object
misspelt = ("qty", number (10 ∷ [])) ∷ ("order_id", text (5 ∷ [])) ∷ []

abbrev misspelt_libraries : Libraries
misspelt_libraries = record libraries {
  unmarshal = λ body. unmarshal_event literals no_folding misspelt;
}

misspelt-IsMissing : IsMissing no_folding names quantity misspelt
unfolding field_of
misspelt-IsMissing = (λ e. absurd cc, (λ e. absurd cc, tt))

process-missing_example : process misspelt_libraries (circumstances conditions) delivery start ≡ (
  record {
    store = start.store;
    messages_processed = increment "permanent" start.messages_processed;
  },
  reject false ∷ [],
)
process-missing_example =
    process-missing misspelt_libraries (circumstances conditions) delivery start literals no_folding
      misspelt quantity refl tt misspelt-IsMissing
