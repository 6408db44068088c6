-- ===== src/GoError.antt =====
-- Go's error values, as far as the program looks into them: `errors.New`, `fmt.Errorf` with and
-- without `%w`, the package variables that serve as sentinels (internal/order/store.go,
-- internal/execution/failure.go, internal/execution/consumer.go) and gRPC statuses.
-- A text is the format of the message; the values printed into it are left out.
use investment_engine.Prelude.{String, Bool, true, false, ◌||◌}

-- google.golang.org/grpc/codes, by name.
pub data GrpcCode : Type 0 where
  ok canceled unknown invalid_argument deadline_exceeded not_found : GrpcCode
  already_exists permission_denied resource_exhausted failed_precondition : GrpcCode
  aborted out_of_range unimplemented internal unavailable data_loss unauthenticated : GrpcCode

pub data Sentinel : Type 0 where
  invalid_event order_not_found deliveries_closed : Sentinel

pub data GoError : Type 0 where
  new : String → GoError  -- errors.New, or fmt.Errorf without %w
  sentinel : Sentinel → GoError  -- a package variable, told apart by its identity
  status : GrpcCode → String → GoError  -- status.Errorf
  wrap : String → GoError → GoError  -- fmt.Errorf with one %w
  wrap_two : String → GoError → GoError → GoError  -- fmt.Errorf with two %w

abbrev pub same_sentinel : Sentinel → Sentinel → Bool
same_sentinel invalid_event invalid_event = true
same_sentinel order_not_found order_not_found = true
same_sentinel deliveries_closed deliveries_closed = true
same_sentinel _ _ = false

-- errors.Is, whose target is one of the sentinels.
unfoldable pub errors_is : GoError → Sentinel → Bool
errors_is (new _) t = false
errors_is (sentinel s) t = same_sentinel s t
errors_is (status _ _) t = false
errors_is (wrap _ e) t = errors_is e t
errors_is (wrap_two _ e f) t = errors_is e t || errors_is f t
