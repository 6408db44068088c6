-- ===== src/Http.antt =====
-- Responses of the API: internal/apierror/apierror.go, internal/auth/auth.go, and the bodies that
-- internal/order/handler.go declares.
use investment_engine.Prelude.{ℕ, ℤ, String, Bool, List, Option, Text}
use investment_engine.Result.{Result, ok}
use investment_engine.Float64.{Float64}
use investment_engine.Order.Model.{Uuid, Instant}

abbrev pub code_validation : String
code_validation = "VALIDATION_ERROR"

abbrev pub code_unauthorized : String
code_unauthorized = "UNAUTHORIZED"

abbrev pub code_payload_too_large : String
code_payload_too_large = "PAYLOAD_TOO_LARGE"

abbrev pub code_internal : String
code_internal = "INTERNAL_ERROR"

pub record FieldError : Type 0 where
  pub field : String
  pub message : String

-- `apiError` in its envelope `errorResponse`
pub record ApiError : Type 0 where
  pub code : String
  pub message : String
  pub fields : List FieldError

pub record OrderResponse : Type 0 where
  pub order_id : Uuid
  pub asset_symbol : Text
  pub quantity : ℤ
  pub side : Text
  pub execution_type : Text
  pub limit_price : Option Float64
  pub status : Text
  pub created_at : Instant

pub record ListOrdersResponse : Type 0 where
  pub orders : List OrderResponse
  pub next_cursor : Option Text
  pub has_more : Bool

pub data Body : Type 0 where
  failure : ApiError → Body
  order : OrderResponse → Body
  orders : ListOrdersResponse → Body

pub record Response : Type 0 where
  pub status : ℕ
  pub content_type : String
  pub body : Body

-- `apierror.Write`
unfoldable pub write : ℕ → String → String → List FieldError → Response
write status code message fields = record {
  status = status;
  content_type = "application/json";
  body = failure (record { code = code; message = message; fields = fields });
}

-- 11111111-1111-1111-1111-111111111111
abbrev pub simulated_user_id : Uuid
simulated_user_id = 0x11111111111111111111111111111111

-- `auth.UserIDFromContext`
unfoldable pub user_id_from_context : Result Uuid
user_id_from_context = ok simulated_user_id
