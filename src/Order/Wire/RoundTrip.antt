-- ===== src/Order/Wire/RoundTrip.antt =====
-- The round trip of an event through its wire form (internal/order/events.go).
use investment_engine.Prelude.{
  Text, String, Bool, Option, none, some, [], ◌∷◌, ◌++◌, ◌≡◌, refl, ap, ◌∙◌,
}
use investment_engine.Result.{Result, ok, err, ◌>>=◌}
use investment_engine.Float64.{Float64}
use investment_engine.Order.Event.{OrderCreatedEvent}
use investment_engine.Json.Fields.{read_fields, field_of}
use investment_engine.Json.{
  number, text, Object, Literals, IsLiterals, put_text, put_int, put_uuid, put_time,
  put_float_pointer,
}
use investment_engine.Order.Wire.{
  names, IsWritable, no_event, store, unmarshal_event, marshal_event, limit_price_members,
}

module _ (l : Literals) (laws : IsLiterals l) (folds : String → String → Bool)
    (e : OrderCreatedEvent) where
  -- The members of an event that come before its price.
  abbrev head_members : Object → Object
  head_members rest =
      ("order_id", text (l.write_uuid e.order_id))
      ∷ ("user_id", text (l.write_uuid e.user_id))
      ∷ ("asset_symbol", text (l.write_text e.asset_symbol))
      ∷ ("quantity", number (l.write_int e.quantity))
      ∷ ("side", text (l.write_text e.side))
      ∷ ("execution_type", text (l.write_text e.execution_type))
      ∷ rest

  abbrev read_so_far : OrderCreatedEvent
  read_so_far = record e { limit_price = none; created_at = 0 }

  read_fields-head_members :
      (rest : Object)
      → IsWritable l e
      → read_fields (store l) folds names (head_members rest) no_event
        ≡ read_fields (store l) folds names rest read_so_far
  unfolding read_fields store field_of put_uuid put_int put_text
  read_fields-head_members rest w =
      rw
        (
          laws.uuid e.order_id w.order_id,
          laws.uuid e.user_id w.user_id,
          laws.int e.quantity w.quantity,
          w.asset_symbol,
          w.side,
          w.execution_type,
        )
        refl

  read_fields-created_at :
      (s : _) (e' : OrderCreatedEvent)
      → l.write_time e.created_at ≡ ok s
      → read_fields (store l) folds names (("created_at", text s) ∷ []) e'
        ≡ ok (record e' { created_at = e.created_at })
  unfolding read_fields store field_of put_time
  read_fields-created_at s e' h = rw (laws.time e.created_at s h) refl

  read_fields-limit_price :
      (s : _) (x : Float64) (rest : Object) (e' : OrderCreatedEvent)
      → l.write_float x ≡ ok s
      → read_fields (store l) folds names (("limit_price", number s) ∷ rest) e'
        ≡ read_fields (store l) folds names rest (record e' { limit_price = some x })
  unfolding read_fields store field_of put_float_pointer
  read_fields-limit_price s x rest e' h = rw (laws.float x s h) refl

  abbrev members : Text → Object → Object
  members time price = head_members (price ++ ("created_at", text time) ∷ [])

  module _ (w : IsWritable l e) where
    read_fields-members :
        (time : Text) (price : Object) (e' : OrderCreatedEvent)
        → (record e' { created_at = e.created_at }) ≡ e
        → read_fields (store l) folds names (price ++ ("created_at", text time) ∷ []) read_so_far
          ≡ read_fields (store l) folds names (("created_at", text time) ∷ []) e'
        → l.write_time e.created_at ≡ ok time
        → unmarshal_event l folds (members time price) ≡ ok e
    unfolding unmarshal_event
    read_fields-members time price e' same price_read ht =
        read_fields-head_members (price ++ ("created_at", text time) ∷ []) w
        ∙ price_read
        ∙ read_fields-created_at time e' ht
        ∙ ap ok same

    priced :
        (x : Float64) (float : Result Text) (written : Result Text) (object : Object)
        → e.limit_price ≡ some x
        → l.write_float x ≡ float
        → l.write_time e.created_at ≡ written
        → ((float >>= λ s. ok (("limit_price", number s) ∷ [])) >>= λ p.
            written >>= λ time. ok (members time p))
          ≡ ok object
        → unmarshal_event l folds object ≡ ok e
    priced x (err _) written object hp hf ht m = cc
    priced x (ok s) (err _) object hp hf ht m = cc
    priced x (ok s) (ok time) object hp hf ht m =
        let is : members time (("limit_price", number s) ∷ []) ≡ object = cc in
        rw (← is) (
          read_fields-members time (("limit_price", number s) ∷ [])
            (record read_so_far { limit_price = some x }) (rw (← hp) refl)
            (read_fields-limit_price s x (("created_at", text time) ∷ []) read_so_far hf) ht)

    unpriced :
        (written : Result Text) (object : Object)
        → e.limit_price ≡ none
        → l.write_time e.created_at ≡ written
        → (written >>= λ time. ok (members time [])) ≡ ok object
        → unmarshal_event l folds object ≡ ok e
    unpriced (err _) object hp ht m = cc
    unpriced (ok time) object hp ht m =
        let is : members time [] ≡ object = cc in
        rw (← is) (read_fields-members time [] read_so_far (rw (← hp) refl) refl ht)

    by_price :
        (price : Option Float64) (object : Object)
        → e.limit_price ≡ price
        → (limit_price_members l price >>= λ p.
            l.write_time e.created_at >>= λ time. ok (members time p))
          ≡ ok object
        → unmarshal_event l folds object ≡ ok e
    by_price none object hp m = unpriced (l.write_time e.created_at) object hp refl m
    by_price (some x) object hp m =
        priced x (l.write_float x) (l.write_time e.created_at) object hp refl refl m

  -- What json.Marshal makes of an event that JSON can carry, json.Unmarshal reads back as the very
  -- same event, with or without a limit price; nor does it matter which names the decoder takes for
  -- equal up to case.
  pub unmarshal_event-marshal_event :
      (object : Object)
      → IsWritable l e
      → marshal_event l e ≡ ok object
      → unmarshal_event l folds object ≡ ok e
  unfolding marshal_event
  unmarshal_event-marshal_event object w m = by_price w e.limit_price object refl m
