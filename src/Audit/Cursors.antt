-- ===== src/Audit/Cursors.antt =====
-- Cursors of pages: packages/server/src/utils/pagination.ts.
pub mod RoundTrip
use elydora_open_source.Prelude.{ℕ, Option, none, some, List, []}
use elydora_open_source.Prelude.Texts.{Text, codes}
use elydora_open_source.Prelude.Throws.{◌>>=◌}
use elydora_open_source.Json.{Json, ℤ, undefined, number, string, object, field, end, member}
use elydora_open_source.Json.Stringify.{stringify}
use elydora_open_source.Json.Parse.{parse}
use elydora_open_source.Crypto.Base64.{base64url_encode, base64url_decode}
use elydora_open_source.Crypto.Utf8.{utf8_encode}
use elydora_open_source.Crypto.Utf8.Decode.{utf8_decode}

pub record Cursor : Type 0 where
  pub created_at : ℤ
  pub id : Text

unfoldable pub cursor_json : Cursor → Json
cursor_json c =
    object (field (codes "created_at") (number c.created_at) (field (codes "id") (string c.id) end))

abbrev text_or_empty : Option Text → Text
text_or_empty none = []
text_or_empty (some t) = t

-- JSON.stringify(payload)
abbrev pub cursor_text : Cursor → Text
cursor_text c = text_or_empty (stringify (cursor_json c))

-- encodeCursor
unfoldable pub encode_cursor : Cursor → Text
encode_cursor c = base64url_encode (utf8_encode (cursor_text c))

abbrev cursor_from : Json → Json → Option Cursor
cursor_from (number n) (string s) = some (record { created_at = n; id = s })
cursor_from _ _ = none

-- The tests of what was parsed; a field of a value that is no object is undefined.
unfoldable pub checked_cursor : Json → Option Cursor
checked_cursor v = cursor_from (member (codes "created_at") v) (member (codes "id") v)

-- decodeCursor
unfoldable pub decode_cursor : Text → Option Cursor
decode_cursor t = do bytes ← base64url_decode t; v ← parse (utf8_decode bytes); checked_cursor v
