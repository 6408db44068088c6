-- ===== src/Order/CreateOrder/OutOfRange.antt =====
-- A quantity that `CreateOrder` of internal/order/handler.go accepts and the column of schema.sql does
-- not hold.
use investment_engine.Prelude.{ℕ, pos, false, ◌≤◌, ◌≡◌, refl, List, [], arith}
use investment_engine.GoError.{GoError}
use investment_engine.Http.{FieldError, write, simulated_user_id, user_id_from_context}
use investment_engine.Order.Model.{Uuid, Instant}
use investment_engine.Order.Store.{Db, Reply, fits_integer}
use investment_engine.Order.Store.Create.{create_out_of_range}
use investment_engine.Order.Listing.{ListFaults}
use investment_engine.Order.Api.{EventPublisher, State, internal_error}
use investment_engine.Order.CreateOrder.{
  CreateOrderRequest, request, field_errors, new_order, submit, create_order,
}
use investment_engine.Order.PostgresStore.{postgres_order_store}

large-fits_integer : (n : ℕ) → 2147483648 ≤ n → fits_integer (pos n) ≡ false
unfolding fits_integer
large-fits_integer n h = ground arith

module _ (upper : ℕ → ℕ) (faults : ListFaults) (reply : Reply) (cause : GoError) (now : Instant)
    {P : Type 0} (publisher : EventPublisher P) (id : Uuid) (st : State Db P)
    (req : CreateOrderRequest) (n : ℕ) (large : req.quantity ≡ pos n) (out : 2147483648 ≤ n) where
  submit_out_of_range :
      (es : List FieldError)
      → es ≡ []
      → let (r, st') =
          submit upper
            (postgres_order_store faults reply cause now)
            publisher
            es
            id
            simulated_user_id
            req
            st in
        (r.status ≡ 500) × (st' ≡ st)
  unfolding internal_error write new_order
  submit_out_of_range es none_found =
      let o = new_order upper id simulated_user_id req in
      let (e, refused) =
        create_out_of_range reply cause now o st.store (rw large (large-fits_integer n out)) in
      rw (none_found, refused) (refl, refl)

  -- A request without any field error whose quantity is 2147483648 or more is answered 500, and
  -- neither an order is stored nor an event published: the handler has no limit for the quantity, but
  -- the column of the table is an INTEGER.
  pub create_order_out_of_range :
      field_errors upper req ≡ []
      → let (r, st') =
          create_order upper
            (postgres_order_store faults reply cause now)
            publisher
            (request req)
            id
            st in
        (r.status ≡ 500) × (st' ≡ st)
  unfolding create_order user_id_from_context
  create_order_out_of_range none_found = submit_out_of_range (field_errors upper req) none_found
