-- ===== src/Order/Query/Conditions.antt =====
-- The WHERE clause that `List` of internal/order/store.go builds means what its filter says.
use investment_engine.Prelude.{
  ℕ, suc, pred, Bool, true, false, ◌&&◌, Option, none, some, List, [], ◌∷◌, ◌++◌, length, get_elem?,
  get_elem?-append_length, length-append, Text, text_eq, ltb, ◌==◌, ◌≡◌, refl, ap, arith,
}
use mathlib.Core.List.{append_assoc}
use native.Mathlib.Numerals.{add-one}
use investment_engine.Pagination.{Cursor}
use investment_engine.Order.Model.{Uuid, Instant, Order}
use investment_engine.Order.Query.{
  ListFilter, Arg, uuid, time, text, Column, status, side, execution_type, asset_symbol, Condition,
  column_is, user_id_is, position_before, created_after, created_before, Builder, add, add_cursor,
  add_column, add_created_after, add_created_before, build, pair_lt, column_of, evaluate, both,
  evaluate_all, placeholder,
}

abbrev pub is_before_cursor : Option Cursor → Order → Bool
is_before_cursor none o = true
is_before_cursor (some c) o = pair_lt o.created_at o.id c.created_at c.id

abbrev pub has_text : Option Text → Text → Bool
has_text none s = true
has_text (some t) s = text_eq s t

abbrev pub is_after : Option Instant → Order → Bool
is_after none o = true
is_after (some t) o = ltb t o.created_at

abbrev pub is_before : Option Instant → Order → Bool
is_before none o = true
is_before (some t) o = ltb o.created_at t

-- What the filter asks for, said without SQL. The cursor comes last.
unfoldable pub passes : ListFilter → Order → Bool
passes f o =
    o.user_id == f.user_id
    && has_text f.status o.status
    && has_text f.side o.side
    && has_text f.execution_type o.execution_type
    && has_text f.asset_symbol o.asset_symbol
    && is_after f.created_after o
    && is_before f.created_before o

both-true : (a : Option Bool) → both a (some true) ≡ both (some true) a
both-true none = refl
both-true (some true) = refl
both-true (some false) = refl

both_assoc : (a b c : Option Bool) → both a (both b c) ≡ both (both a b) c
both_assoc a b c = ground arith

evaluate_all-append :
    (o : Order) (args : List Arg) (cs : List Condition) (c : Condition)
    → evaluate_all args (cs ++ c ∷ []) o ≡ both (evaluate_all args cs o) (evaluate args c o)
unfolding evaluate_all
evaluate_all-append o args [] c = both-true (evaluate args c o)
evaluate_all-append o args (d ∷ cs) c =
    rw (evaluate_all-append o args cs c)
      (both_assoc (evaluate args d o) (evaluate_all args cs o) (evaluate args c o))

-- The placeholder of an argument that was just appended.
placeholder-append :
    (args more : List Arg) (a : Arg)
    → placeholder ((args ++ a ∷ []) ++ more) (length (args ++ a ∷ [])) ≡ some a
placeholder-append args more a =
    rw (length-append args (a ∷ []), append_assoc args (a ∷ []) more, add-one (length args))
      (get_elem?-append_length args more a)

get_elem?-append_second :
    (args more : List Arg) (a b : Arg)
    → get_elem? (args ++ a ∷ b ∷ more) (suc (length args)) ≡ some b
get_elem?-append_second [] more a b = refl
get_elem?-append_second (x ∷ args) more a b = get_elem?-append_second args more a b

length_two : (args : List Arg) (a b : Arg) → length (args ++ a ∷ b ∷ []) ≡ suc (suc (length args))
length_two args a b = omega (arith, length-append args (a ∷ b ∷ []))

placeholder-append_two :
    (args more : List Arg) (a b : Arg)
    → (placeholder ((args ++ a ∷ b ∷ []) ++ more) (pred (length (args ++ a ∷ b ∷ []))) ≡ some a)
      × (placeholder ((args ++ a ∷ b ∷ []) ++ more) (length (args ++ a ∷ b ∷ [])) ≡ some b)
placeholder-append_two args more a b =
    rw (length_two args a b, append_assoc args (a ∷ b ∷ []) more)
      (get_elem?-append_length args (b ∷ more) a, get_elem?-append_second args more a b)

cursor_last :
    (u c s d e y p q : Bool)
    → (((((((u && c) && s) && d) && e) && y) && p) && q) ≡ ((u && s && d && e && y && p && q) && c)
cursor_last false c s d e y p q = ground arith
cursor_last true c s d e y p q = ground arith

module _ (o : Order) where
  -- The conditions so far have the value `v`, whatever arguments follow.
  abbrev IsValue : Builder → Bool → Type 0
  IsValue b v = (more : List Arg) → evaluate_all (b.args ++ more) b.conditions o ≡ some v

  position_before-value :
      (c : Cursor) (args : List Arg) (n m : ℕ)
      → placeholder args n ≡ some (time c.created_at)
      → placeholder args m ≡ some (uuid c.id)
      → evaluate args (position_before n m) o ≡ some (pair_lt o.created_at o.id c.created_at c.id)
  unfolding evaluate
  position_before-value c args n m p q = rw (p, q)

  add-IsValue :
      (b : Builder) (v w : Bool) (a : Arg) (condition : ℕ → Condition)
      → ((args : List Arg) (n : ℕ)
          → placeholder args n ≡ some a
          → evaluate args (condition n) o ≡ some w)
      → IsValue b v
      → IsValue (add b a condition) (v && w)
  add-IsValue b v w a condition means h more =
      rw
        (
          evaluate_all-append o,
          means _ _ (placeholder-append b.args more a),
          append_assoc b.args (a ∷ []) more,
          h (a ∷ more),
        )
        refl

  skip-IsValue : (b : Builder) (v : Bool) → IsValue b v → IsValue b (v && true)
  skip-IsValue b true h more = h more
  skip-IsValue b false h more = h more

  add_cursor-IsValue :
      (c : Option Cursor) (b : Builder) (v : Bool)
      → IsValue b v
      → IsValue (add_cursor c b) (v && is_before_cursor c o)
  unfolding add_cursor
  add_cursor-IsValue none b v h = skip-IsValue b v h
  add_cursor-IsValue (some c) b v h = λ more.
      let two = placeholder-append_two b.args more (time c.created_at) (uuid c.id) in
      rw
        (
          evaluate_all-append o,
          position_before-value c _ _ _ two.0 two.1,
          append_assoc b.args (time c.created_at ∷ uuid c.id ∷ []) more,
          h (time c.created_at ∷ uuid c.id ∷ more),
        )
        refl

  add_column-IsValue :
      (column : Column) (t : Option Text) (b : Builder) (v : Bool)
      → IsValue b v
      → IsValue (add_column column t b) (v && has_text t (column_of column o))
  unfolding add_column evaluate
  add_column-IsValue column none b v h = skip-IsValue b v h
  add_column-IsValue column (some t) b v h =
      add-IsValue b v (text_eq (column_of column o) t) (text t) (column_is column)
        (λ args n p. rw p) h

  add_created_after-IsValue :
      (t : Option Instant) (b : Builder) (v : Bool)
      → IsValue b v
      → IsValue (add_created_after t b) (v && is_after t o)
  unfolding add_created_after evaluate
  add_created_after-IsValue none b v h = skip-IsValue b v h
  add_created_after-IsValue (some t) b v h =
      add-IsValue b v (ltb t o.created_at) (time t) created_after (λ args n p. rw p) h

  add_created_before-IsValue :
      (t : Option Instant) (b : Builder) (v : Bool)
      → IsValue b v
      → IsValue (add_created_before t b) (v && is_before t o)
  unfolding add_created_before evaluate
  add_created_before-IsValue none b v h = skip-IsValue b v h
  add_created_before-IsValue (some t) b v h =
      add-IsValue b v (ltb o.created_at t) (time t) created_before (λ args n p. rw p) h

  user_id_is-IsValue :
      (k : Uuid)
      → IsValue (record { conditions = user_id_is 1 ∷ []; args = uuid k ∷ [] }) (o.user_id == k)
  unfolding evaluate_all evaluate
  user_id_is-IsValue k more = ground arith

  -- In the order of the source, with the cursor behind the user.
  build-IsValue :
      (f : ListFilter)
      → IsValue (build f) (
          (((((((o.user_id == f.user_id) && is_before_cursor f.cursor o)
                    && has_text f.status o.status)
                  && has_text f.side o.side)
                && has_text f.execution_type o.execution_type)
              && has_text f.asset_symbol o.asset_symbol)
            && is_after f.created_after o)
          && is_before f.created_before o)
  unfolding build
  build-IsValue f = add_created_before-IsValue f.created_before _ _ (
      add_created_after-IsValue f.created_after _ _ (
        add_column-IsValue asset_symbol f.asset_symbol _ _ (
          add_column-IsValue execution_type f.execution_type _ _ (
            add_column-IsValue side f.side _ _ (
              add_column-IsValue status f.status _ _
                (add_cursor-IsValue f.cursor _ _ (user_id_is-IsValue f.user_id)))))))

  -- The WHERE clause reads each of its arguments at the right placeholder and type, so that no row
  -- makes it fail, and it passes exactly the rows that the filter asks for and that lie behind the
  -- cursor. More arguments may follow: that of LIMIT does.
  pub evaluate_all-build :
      (f : ListFilter) (more : List Arg)
      → evaluate_all ((build f).args ++ more) (build f).conditions o
        ≡ some (passes f o && is_before_cursor f.cursor o)
  unfolding passes
  evaluate_all-build f more =
      rw (build-IsValue f more)
        (ap some (cursor_last (o.user_id == f.user_id) (is_before_cursor f.cursor o) _ _ _ _ _ _))
