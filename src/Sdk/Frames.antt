-- ===== src/Sdk/Frames.antt =====
-- streaming.ts, the reading of one text frame. JSON.parse is the parameter `json_parse`.
use fissionplane.Prelude.{ℕ, Bool, true, false, String, Option, none, some, ltb}
use fissionplane.Sdk.Value.{Value, Number, pos, negsuc, fractional, number, object, Fields}
use fissionplane.Sdk.Errors.{protocol_error}
use fissionplane.Sdk.Effect.{Outcome, ok, raise}

-- What a WebSocket message event carries: a text, or binary data.
pub data FrameData : Type 0 where
  text_frame : String → FrameData
  binary_frame : FrameData

unfoldable pub object_of : Option Value → Outcome Fields
object_of none = raise (protocol_error "received malformed JSON text frame")
object_of (some (object fields)) = ok fields
object_of (some _) = raise (protocol_error "expected a JSON object frame")

-- parseJsonObject; `json_parse` answers `none` where JSON.parse throws.
unfoldable pub parse_json_object : (String → Option Value) → FrameData → Outcome Fields
unfolding object_of
parse_json_object json_parse (text_frame s) = object_of (json_parse s)
parse_json_object json_parse binary_frame = raise (protocol_error "expected a JSON text frame")

-- isPositiveInteger, as the number that it lets through.
unfoldable pub positive_integer : Option Value → Option ℕ
positive_integer (some (number (pos n))) = elim (ltb 0 n) [ true ↦ some n | false ↦ none ]
positive_integer _ = none

-- isNonNegativeInteger, of a number.
unfoldable pub is_non_negative_integer : Number → Bool
is_non_negative_integer (pos n) = true
is_non_negative_integer (negsuc n) = false
is_non_negative_integer (fractional s) = false

-- `typeof value === 'number' && Number.isInteger(value)`.
unfoldable pub integer : Option Value → Option Number
integer (some (number (pos n))) = some (pos n)
integer (some (number (negsuc n))) = some (negsuc n)
integer _ = none
