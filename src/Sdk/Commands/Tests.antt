-- ===== src/Sdk/Commands/Tests.antt =====
-- Process frames, with a parser that knows two texts.
use fissionplane.Prelude.{◌≡◌, refl, ◌↔◌, String, Option, some, none, ◌==◌, if◌then◌else◌}
use fissionplane.Sdk.Value.{Value, pos, text, number, object, Fields, end, field, property}
use fissionplane.Sdk.Effect.{ok}
use fissionplane.Sdk.Frames.{text_frame, parse_json_object, object_of, positive_integer}
use fissionplane.Sdk.Commands.{
  stdout, parse_process_stream_event, of_object, typed, process_event, both,
}
use fissionplane.Sdk.Commands.Protocol.{IsFrame}
use fissionplane.Sdk.Commands.Parsing.{parse_process_stream_event_iff}

abbrev output : Fields
output =
    field "type" (text "stdout") (field "sequence" (number (pos 4)) (field "data" (text "hi") end))

abbrev ping : Fields
ping = field "type" (text "ping") end

abbrev json_parse : String → Option Value
json_parse s =
    if s == "output" then some (object output) else if s == "ping" then some (object ping) else none

output_frame :
    parse_process_stream_event json_parse (text_frame "output") ≡ ok (some (stdout 4 "hi"))
unfolding parse_process_stream_event parse_json_object object_of of_object typed process_event both
    positive_integer property
output_frame = refl

parse_process_stream_event_iff_example :
    (parse_process_stream_event json_parse (text_frame "output") ≡ ok (some (stdout 4 "hi"))) ↔ (
      (s : String) × (message : Fields) × (text_frame "output" ≡ text_frame s)
      × (json_parse s ≡ some (object message))
      × IsFrame message (stdout 4 "hi"))
parse_process_stream_event_iff_example =
    parse_process_stream_event_iff json_parse (text_frame "output") (stdout 4 "hi")
