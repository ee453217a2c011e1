-- ===== src/Gateway/Cursor.antt =====
-- The cursor of internal/gateway/cursor.go.
use text.Mathlib.Text.{◌==◌ as str_eq}
use vantage.Prelude.{◌≡◌, ap, ◌∙◌, false, ◌||◌, none, some, if◌then◌else◌}
use vantage.Gateway.{
  TelemetryCursor, Env, encode_cursor, decode_cursor, read_payload, complete_cursor, read_cursor,
}

module _ {Time Bytes : Type 0} (env : Env Time Bytes) where
  -- When base64 and the JSON of a cursor can be read back, `decodeCursor` gives back what
  -- `encodeCursor` was given, if its time is not the zero time and its metric has a name.
  pub decode_cursor-encode_cursor :
      (c : TelemetryCursor Time)
      → env.decode_base64 (env.encode_base64 (env.marshal c)) ≡ some (env.marshal c)
      → env.unmarshal (env.marshal c) ≡ some c
      → env.is_zero c.ts ≡ false
      → str_eq c.metric "" ≡ false
      → decode_cursor env (encode_cursor env c) ≡ some c
  unfolding decode_cursor encode_cursor read_payload read_cursor complete_cursor
  decode_cursor-encode_cursor c base64 json dated named =
      ap (read_payload env) base64
      ∙ ap (read_cursor env) json
      ∙ ap (λ q. if q || str_eq c.metric "" then none else some c) dated
      ∙ ap (λ q. if q then none else some c) named
