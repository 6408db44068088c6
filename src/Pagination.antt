-- ===== src/Pagination.antt =====
-- internal/pagination/cursor.go: the position behind the last item of a page, and its token.
pub mod Base64
pub mod Token
use investment_engine.Prelude.{
  ℕ, Bool, ◌||◌, Option, none, some, List, ◌≡◌, Text, ◌==◌, if◌then◌else◌, arith,
}
use investment_engine.GoError.{GoError, new, wrap}
use investment_engine.Result.{Result, ok, err}
use investment_engine.Order.Model.{Uuid, uuid_nil, Instant}

pub record Cursor : Type 0 where
  pub created_at : Instant
  pub id : Uuid

-- json.Marshal and json.Unmarshal of a cursor, over the bytes of the text.
pub record CursorJson : Type 0 where
  pub marshal : Cursor → Result (List ℕ)
  pub unmarshal : List ℕ → Result Cursor

abbrev encoded : Result (List ℕ) → Result Text
encoded (err e) = err (wrap "encode cursor: %w" e)
encoded (ok bytes) = ok (Base64.encode bytes)

-- `EncodeCursor`
unfoldable pub encode_cursor : CursorJson → Cursor → Result Text
encode_cursor json c = encoded (json.marshal c)

abbrev checked : Result Cursor → Result Cursor
checked (err e) = err (wrap "decode cursor: invalid payload: %w" e)
checked (ok c) =
    if c.created_at == 0 || c.id == uuid_nil
    then err (new "decode cursor: invalid payload: createdAt and id are required")
    else ok c

abbrev unmarshalled : CursorJson → Option (List ℕ) → Result Cursor
unmarshalled json none =
    err (wrap "decode cursor: invalid encoding: %w" (new "illegal base64 data"))
unmarshalled json (some bytes) = checked (json.unmarshal bytes)

-- `DecodeCursor`
unfoldable pub decode_cursor : CursorJson → Text → Result Cursor
decode_cursor json token = unmarshalled json (Base64.decode token)
