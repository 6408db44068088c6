-- ===== src/System/RoundTrip.antt =====
-- An order from the request that creates it to the delivery that executes it, on PostgreSQL.
use investment_engine.Prelude.{ℕ, ◌≡◌, ◌≢◌, ap, ◌∙◌, [], ◌∷◌, arith, true, text_eq, text_eq_refl}
use investment_engine.GoError.{GoError}
use investment_engine.Result.{ok}
use investment_engine.Float64.{Float64}
use investment_engine.Http.{Response, simulated_user_id}
use investment_engine.Order.Model.{Uuid, uuid_nil, Instant, Order, status_pending}
use investment_engine.Order.Event.{new_order_created_event}
use investment_engine.Order.Store.{
  Db, Reply, count_orders, count_with, count_execution_ids, fits_integer,
}
use investment_engine.Order.Store.Tables.{count_with-le-count_orders, pending_executed}
use investment_engine.Order.Store.Create.{create-ok}
use investment_engine.Order.Store.Invariant.{IsConsistent, executed, create-IsConsistent}
use investment_engine.Order.Store.Execute.{IsHealthy}
use investment_engine.Order.Listing.{ListFaults}
use investment_engine.Order.Api.{State}
use investment_engine.Order.CreateOrder.{Decoded, new_order, create_order}
use investment_engine.Order.CreateOrder.Laws.{
  IsCreated, create_order-IsCreated, create_order-validate,
}
use investment_engine.Order.PostgresStore.{postgres_order_store, postgres_order_store-IsOrderStore}
use investment_engine.Execution.Consumer.{Libraries, Delivery, Counter, ack, increment, process}
use investment_engine.System.{silent, Conditions, circumstances}
use investment_engine.System.Execution.{delivery_executes}

one_pending :
    (o : Order) (os : _)
    → count_orders o.id os ≡ 0
    → o.status ≡ status_pending
    → count_with status_pending o.id (o ∷ os) ≡ 1
unfolding count_with text_eq
one_pending o os fresh e =
    ground
      (arith, e, text_eq_refl status_pending, count_with-le-count_orders status_pending o.id os)

module _ (upper : ℕ → ℕ) (faults : ListFaults) (reply : Reply) (cause : GoError) (now : Instant)
    (id : Uuid) (db : Db) (decoded : Decoded) where
  abbrev pub answered : Response × State Db (Unit {0})
  answered =
      create_order upper (postgres_order_store faults reply cause now) silent decoded id
        (record { store = db; publisher = tt })

  module _ (created : answered.0.status ≡ 201) where
    abbrev laws :
        IsCreated upper
          (postgres_order_store faults reply cause now)
          silent
          id
          (record { store = db; publisher = tt })
          decoded
          answered
    laws =
        create_order-IsCreated upper (postgres_order_store faults reply cause now) silent id
          (record { store = db; publisher = tt }) decoded created

    order_pending :
        IsConsistent db
        → IsConsistent answered.1.store
          × (count_with status_pending laws.created.id answered.1.store.orders ≡ 1)
          × (answered.1.store.executions ≡ db.executions)
          × (fits_integer laws.created.quantity ≡ true)
    unfolding new_order
    order_pending c =
        let o = new_order upper id simulated_user_id laws.req in
        let (same, kept, fresh, fits) = create-ok reply cause now o db laws.created laws.stored in
        let after = ap (λ (st : State Db (Unit {0})). st.store) laws.state ∙ kept in
        (
          rw (ap (λ (st : State Db (Unit {0})). st.store) laws.state)
              (create-IsConsistent reply cause now o db pending_executed c),
          rw after (
              one_pending laws.created db.orders (rw same fresh)
                (ap (λ (x : Order). x.status) same)),
          ap (λ (x : Db). x.executions) after,
          rw same fits,
        )

    -- After `CreateOrder` has answered 201, on consistent tables and with an id that is not nil, a
    -- delivery whose body decodes to the event of the created order executes that order: if the
    -- price service quotes a price for it, the driver fails nowhere and the drawn execution id is
    -- new, then the order becomes EXECUTED with one execution of its quantity at that price, and
    -- the delivery is acked and counted as a success.
    pub created_order_executes :
        (c : Conditions) (lib : Libraries) (d : Delivery) (m : Counter) (price : Float64)
        → IsConsistent db
        → id ≢ uuid_nil
        → IsHealthy c.faults
        → count_execution_ids c.execution_id db.executions ≡ 0
        → lib.unmarshal d.body ≡ ok (new_order_created_event laws.created)
        → c.prices laws.created.asset_symbol ≡ ok price
        → process lib
            (circumstances c)
            d
            (record { store = answered.1.store; messages_processed = m })
          ≡ (
            record {
              store =
                  executed c.execution_id c.now laws.created.id price laws.created.quantity
                    answered.1.store;
              messages_processed = increment "success" m;
            },
            ack ∷ [],
          )
    unfolding new_order_created_event
    created_order_executes c lib d m price consistent known healthy fresh decodes quoted =
        let (still, pending, kept, fits) = order_pending consistent in
        let valid =
          create_order-validate upper (postgres_order_store faults reply cause now) silent id
            (record { store = db; publisher = tt })
            (postgres_order_store-IsOrderStore faults reply cause now) decoded known created in
        delivery_executes c (new_order_created_event laws.created) price answered.1.store healthy
          still (rw kept fresh) fits pending lib d m decodes valid quoted
