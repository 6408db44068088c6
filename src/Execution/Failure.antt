-- ===== src/Execution/Failure.antt =====
-- internal/execution/failure.go: which failures deserve a retry.
use investment_engine.Prelude.{String, ◌||◌, if◌then◌else◌, ◌≡◌}
use investment_engine.GoError.{
  GoError, new, sentinel, status, wrap, Sentinel, invalid_event, order_not_found, errors_is,
  GrpcCode, not_found, invalid_argument, unknown,
}

pub data FailureKind : Type 0 where
  permanent_failure transient_failure : FailureKind

-- `failureKind.String`
unfoldable pub to_string : FailureKind → String
to_string permanent_failure = "permanent"
to_string transient_failure = "transient"

abbrev pub err_invalid_event : GoError
err_invalid_event = sentinel invalid_event

-- The `switch` on the gRPC code.
unfoldable pub classify_code : GrpcCode → FailureKind
classify_code not_found = permanent_failure
classify_code invalid_argument = permanent_failure
classify_code _ = transient_failure

-- `status_code` is google.golang.org/grpc/status.Code.
unfoldable pub classify_failure : (GoError → GrpcCode) → GoError → FailureKind
unfolding classify_code
classify_failure status_code e =
    if errors_is e invalid_event || errors_is e order_not_found
    then permanent_failure
    else classify_code (status_code e)

-- What the program relies on of status.Code: it reads the code of a status, through any `%w`, and
-- answers Unknown for an error that holds none.
pub record IsStatusCode (status_code : GoError → GrpcCode) : Type 0 where
  pub of_status : (c : GrpcCode) (m : String) → status_code (status c m) ≡ c
  pub of_wrap : (m : String) (e : GoError) → status_code (wrap m e) ≡ status_code e
  pub of_new : (m : String) → status_code (new m) ≡ unknown
  pub of_sentinel : (s : Sentinel) → status_code (sentinel s) ≡ unknown
