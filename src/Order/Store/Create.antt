-- ===== src/Order/Store/Create.antt =====
-- What `Create` of internal/order/store.go returns, and what it leaves in the table.
use investment_engine.Prelude.{◌≡◌, refl, ◌∷◌, true, false, Bool-cases, inl, inr, arith}
use investment_engine.GoError.{GoError, wrap}
use investment_engine.Result.{ok, err}
use investment_engine.Order.Model.{Instant, Order}
use investment_engine.Order.Store.{
  Db, Reply, done, refused, lost, create, after_insert, admits_order, fits_integer, count_orders,
  constraint_error,
}

after_insert-ok :
    (reply : Reply) (cause : GoError) (db db' : Db) (row o : Order)
    → (after_insert reply cause db row db').0 ≡ ok o
    → (o ≡ row) × ((after_insert reply cause db row db').1 ≡ db')
unfolding after_insert
after_insert-ok done cause db db' row o h = (ground arith, refl)
after_insert-ok refused cause db db' row o h = absurd (ground arith)
after_insert-ok lost cause db db' row o h = absurd (ground arith)

admits_order_sound :
    (db : Db) (o : Order)
    → admits_order db o ≡ true
    → (count_orders o.id db.orders ≡ 0) × (fits_integer o.quantity ≡ true)
unfolding admits_order
admits_order_sound db o h = ground arith

admits_order_out_of_range :
    (db : Db) (o : Order) → fits_integer o.quantity ≡ false → admits_order db o ≡ false
unfolding admits_order
admits_order_out_of_range db o h = ground arith

module _ (reply : Reply) (cause : GoError) (now : Instant) (o : Order) (db : Db) where
  -- An order that is returned is the given one with the time of its row; that row is now in the
  -- table, beside all that was there; its id is new, and its quantity fits.
  pub create-ok :
      (created : Order)
      → (create reply cause now o db).0 ≡ ok created
      → (created ≡ record o { created_at = now })
        × ((create reply cause now o db).1 ≡ record db { orders = created ∷ db.orders })
        × (count_orders o.id db.orders ≡ 0)
        × (fits_integer o.quantity ≡ true)
  unfolding create
  create-ok created h =
      let row : Order = record o { created_at = now } in
      elim (Bool-cases (admits_order db row)) [
        | inl fits ↦
            let db' : Db = record db { orders = row ∷ db.orders } in
            let (same, kept) = after_insert-ok reply cause db db' row created (rw fits at h) in
            let (fresh, in_range) = admits_order_sound db row fits in
            (same, rw (fits, same) kept, fresh, in_range)
        | inr bad ↦ absurd (let h' = rw bad at h in ground arith)
      ]

  -- An order whose quantity INTEGER cannot hold is refused, whatever else it is.
  pub create_out_of_range :
      fits_integer o.quantity ≡ false → (e : GoError) × (create reply cause now o db ≡ (err e, db))
  unfolding create
  create_out_of_range h = (
    wrap "create order: %w" constraint_error,
    rw (admits_order_out_of_range db (record o { created_at = now }) h) refl,
  )
