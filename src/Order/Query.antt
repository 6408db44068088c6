-- ===== src/Order/Query.antt =====
-- `List` of internal/order/store.go: the query that it builds from a filter, that query over the
-- rows of the table `orders`, and the page that it makes of the rows. A condition is a data type
-- whose numbers are the placeholders `$n`, counted from 1 as in the text of the query.
pub mod Conditions
use investment_engine.Prelude.{
  ℕ, zero, suc, pred, ◌+◌, ℤ, pos, pos_part, ◌+ℤ◌, leb_ℤ, Bool, true, false, ◌&&◌, ◌||◌, Option,
  none, some, List, [], ◌∷◌, ◌++◌, length, get_elem?, take, Text, text_eq, ltb, ◌==◌, if◌then◌else◌,
}
use investment_engine.GoError.{GoError, new, wrap}
use investment_engine.Result.{Result, ok, err}
use investment_engine.Pagination.{Cursor}
use investment_engine.Order.Model.{Uuid, Instant, Status, Side, ExecutionType, Order}

abbrev pub default_limit : ℤ
default_limit = pos 20

pub record ListFilter : Type 0 where
  pub user_id : Uuid
  pub cursor : Option Cursor
  pub limit : ℤ
  pub status : Option Status
  pub side : Option Side
  pub execution_type : Option ExecutionType
  pub asset_symbol : Option Text
  pub created_after : Option Instant
  pub created_before : Option Instant

-- The values bound to placeholders: Go's `[]any`.
pub data Arg : Type 0 where
  uuid : Uuid → Arg
  time : Instant → Arg
  text : Text → Arg
  int : ℤ → Arg

pub data Column : Type 0 where
  status side execution_type asset_symbol : Column

pub data Condition : Type 0 where
  user_id_is : ℕ → Condition  -- user_id = $n
  position_before : ℕ → ℕ → Condition  -- (created_at, id) < ($n, $m)
  column_is : Column → ℕ → Condition  -- status = $n, and so on
  created_after : ℕ → Condition  -- created_at > $n
  created_before : ℕ → Condition  -- created_at < $n

pub record Builder : Type 0 where
  pub conditions : List Condition
  pub args : List Arg

-- `args = append(args, …)`, then the condition on the placeholder of the new argument.
abbrev pub add : Builder → Arg → (ℕ → Condition) → Builder
add b a condition =
    let args = b.args ++ a ∷ [] in
    record { conditions = b.conditions ++ condition (length args) ∷ []; args = args }

unfoldable pub add_cursor : Option Cursor → Builder → Builder
add_cursor none b = b
add_cursor (some c) b =
    let args = b.args ++ time c.created_at ∷ uuid c.id ∷ [] in
    record {
      conditions = b.conditions ++ position_before (pred (length args)) (length args) ∷ [];
      args = args;
    }

unfoldable pub add_column : Column → Option Text → Builder → Builder
add_column column none b = b
add_column column (some t) b = add b (text t) (column_is column)

unfoldable pub add_created_after : Option Instant → Builder → Builder
add_created_after none b = b
add_created_after (some t) b = add b (time t) created_after

unfoldable pub add_created_before : Option Instant → Builder → Builder
add_created_before none b = b
add_created_before (some t) b = add b (time t) created_before

-- The conditions and their arguments, in the order of the source.
unfoldable pub build : ListFilter → Builder
build f =
    let b : Builder = record { conditions = user_id_is 1 ∷ []; args = uuid f.user_id ∷ [] } in
    let b = add_cursor f.cursor b in
    let b = add_column status f.status b in
    let b = add_column side f.side b in
    let b = add_column execution_type f.execution_type b in
    let b = add_column asset_symbol f.asset_symbol b in
    let b = add_created_after f.created_after b in add_created_before f.created_before b

-- The value of the placeholder `$n`.
abbrev pub placeholder : List Arg → ℕ → Option Arg
placeholder args zero = none
placeholder args (suc n) = get_elem? args n

-- (a, b) < (c, d) on rows of two columns.
unfoldable pub pair_lt : ℕ → ℕ → ℕ → ℕ → Bool
pair_lt a b c d = ltb a c || a == c && ltb b d

abbrev pub column_of : Column → Order → Text
column_of status o = o.status
column_of side o = o.side
column_of execution_type o = o.execution_type
column_of asset_symbol o = o.asset_symbol

abbrev uuid_test : (Uuid → Bool) → Option Arg → Option Bool
uuid_test p (some (uuid k)) = some (p k)
uuid_test p _ = none

abbrev time_test : (Instant → Bool) → Option Arg → Option Bool
time_test p (some (time t)) = some (p t)
time_test p _ = none

abbrev text_test : (Text → Bool) → Option Arg → Option Bool
text_test p (some (text t)) = some (p t)
text_test p _ = none

abbrev position_test : Order → Option Arg → Option Arg → Option Bool
position_test o (some (time t)) (some (uuid k)) = some (pair_lt o.created_at o.id t k)
position_test o _ _ = none

-- A condition on a row; `none` is an error of the server, such as an argument of another type.
unfoldable pub evaluate : List Arg → Condition → Order → Option Bool
unfolding pair_lt
evaluate args (user_id_is n) o = uuid_test (λ k. o.user_id == k) (placeholder args n)
evaluate args (position_before n m) o = position_test o (placeholder args n) (placeholder args m)
evaluate args (column_is column n) o =
    text_test (λ t. text_eq (column_of column o) t) (placeholder args n)
evaluate args (created_after n) o = time_test (λ t. ltb t o.created_at) (placeholder args n)
evaluate args (created_before n) o = time_test (λ t. ltb o.created_at t) (placeholder args n)

abbrev pub both : Option Bool → Option Bool → Option Bool
both (some a) (some b) = some (a && b)
both _ _ = none

-- The conditions, joined by AND.
unfoldable pub evaluate_all : List Arg → List Condition → Order → Option Bool
evaluate_all args [] o = some true
evaluate_all args (c ∷ cs) o = both (evaluate args c o) (evaluate_all args cs o)
