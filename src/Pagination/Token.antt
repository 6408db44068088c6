-- ===== src/Pagination/Token.antt =====
-- The tokens of internal/pagination/cursor.go.
use investment_engine.Prelude.{
  ℕ, ◌<◌, ◌*◌, [], ◌∷◌, Option, none, some, List, ◌≡◌, ◌≢◌, refl, sym, Text, arith,
}
use investment_engine.Result.{Result, ok, err}
use investment_engine.Order.Model.{uuid_nil, Instant}
use investment_engine.Pagination.Base64
use investment_engine.Pagination.Base64.{Bytes}
use investment_engine.Pagination.{
  Cursor, CursorJson, encode_cursor, decode_cursor, encoded, checked, unmarshalled,
}

-- The year 10000, in nanoseconds since the year 1: time.Time has no JSON from then on.
abbrev pub year_10000 : Instant
year_10000 = 3652059 * 86400 * 1000000000

-- What the program relies on of encoding/json: it writes every cursor before the year 10000, as
-- bytes and never as nothing, and reads a cursor that it wrote.
pub record IsCursorJson (json : CursorJson) : Type 0 where
  pub writes : (c : Cursor) → c.created_at < year_10000 → (bs : List ℕ) × (json.marshal c ≡ ok bs)
  pub something : (c : Cursor) → json.marshal c ≢ ok []
  pub bytes : (c : Cursor) (bs : List ℕ) → json.marshal c ≡ ok bs → Bytes bs
  pub reads : (c : Cursor) (bs : List ℕ) → json.marshal c ≡ ok bs → json.unmarshal bs ≡ ok c

checked-keeps : (c : Cursor) → c.created_at ≢ 0 → c.id ≢ uuid_nil → checked (ok c) ≡ ok c
checked-keeps c h k = ground arith

encoded-ok :
    (r : Result (List ℕ)) (t : Text)
    → encoded r ≡ ok t
    → (bs : List ℕ) × (r ≡ ok bs) × (t ≡ Base64.encode bs)
encoded-ok (ok bs) t h = (bs, refl, ground arith)
encoded-ok (err e) t h = absurd (ground arith)

-- The token of a cursor with a position is decoded to that cursor.
pub decode_cursor-encode_cursor :
    (json : CursorJson)
    → IsCursorJson json
    → (c : Cursor) (token : Text) → c.created_at ≢ 0
    → c.id ≢ uuid_nil
    → encode_cursor json c ≡ ok token
    → decode_cursor json token ≡ ok c
unfolding encode_cursor decode_cursor
decode_cursor-encode_cursor json w c token h k e =
    let (bs, m, t) = encoded-ok (json.marshal c) token e in
    rw (t, Base64.decode-encode bs (w.bytes c bs m), w.reads c bs m) (checked-keeps c h k)

checked-position :
    (r : Result Cursor) (c : Cursor) → checked r ≡ ok c → (c.created_at ≢ 0) × (c.id ≢ uuid_nil)
checked-position (ok c') c h = ground arith
checked-position (err e) c h = absurd (ground arith)

unmarshalled-position :
    (json : CursorJson) (bytes : Option (List ℕ)) (c : Cursor)
    → unmarshalled json bytes ≡ ok c
    → (c.created_at ≢ 0) × (c.id ≢ uuid_nil)
unmarshalled-position json none c h = absurd (ground arith)
unmarshalled-position json (some bytes) c h = checked-position (json.unmarshal bytes) c h

-- Whatever a client sends, a token that is accepted holds a position.
pub decode_cursor-position :
    (json : CursorJson) (token : Text) (c : Cursor)
    → decode_cursor json token ≡ ok c
    → (c.created_at ≢ 0) × (c.id ≢ uuid_nil)
unfolding decode_cursor
decode_cursor-position json token c h = unmarshalled-position json (Base64.decode token) c h

encode-ne-nil : (bs : List ℕ) → bs ≢ [] → Base64.encode bs ≢ []
unfolding Base64.encode
encode-ne-nil [] h = absurd (h refl)
encode-ne-nil (a ∷ []) h = λ e. cc
encode-ne-nil (a ∷ b ∷ []) h = λ e. cc
encode-ne-nil (a ∷ b ∷ c ∷ bs) h = λ e. cc

-- A token is a text of at least one character.
pub encode_cursor-ne-nil :
    (json : CursorJson) → IsCursorJson json → (c : Cursor) → encode_cursor json c ≢ ok []
unfolding encode_cursor
encode_cursor-ne-nil json w c e =
    let (bs, m, t) = encoded-ok (json.marshal c) [] e in
    encode-ne-nil bs (λ n. w.something c (rw (← n) m)) (sym t)

-- A cursor before the year 10000 has a token.
pub encode_cursor-total :
    (json : CursorJson)
    → IsCursorJson json
    → (c : Cursor) → c.created_at < year_10000
    → (token : Text) × (encode_cursor json c ≡ ok token)
unfolding encode_cursor
encode_cursor-total json w c h = let (bs, m) = w.writes c h in (Base64.encode bs, rw m)
