-- ===== src/Sdk/Commands.antt =====
-- src/sdks/typescript/src/commands.ts: the events of an attached process.
pub mod Protocol
pub mod Parsing
pub mod Operations
pub mod Budget
pub mod Attaching
mod Tests
use Prim.Native.String.{◌++◌}
use fissionplane.Prelude.{ℕ, String, Option, none, some, ◌==◌, if◌then◌else◌}
use fissionplane.Sdk.Value.{Value, Number, Fields, property, as_text}
use fissionplane.Sdk.Errors.{protocol_error}
use fissionplane.Sdk.Effect.{Outcome, ok, raise}
use fissionplane.Sdk.Frames.{FrameData, parse_json_object, positive_integer, integer}

-- ProcessStreamEvent.
pub data ProcessStreamEvent : Type 0 where
  stdout stderr : ℕ → String → ProcessStreamEvent
  exit : ℕ → Number → ProcessStreamEvent
  gap : ℕ → ℕ → ProcessStreamEvent

malformed : {T : Type 0} → String → Outcome (Option T)
malformed kind = raise (protocol_error ("malformed known " ++ kind ++ " frame"))

-- Both fields of a frame must be of their type, or the frame is malformed.
both : {A B T : Type 0} → String → (A → B → T) → Option A → Option B → Outcome (Option T)
both kind make (some a) (some b) = ok (some (make a b))
both kind make (some a) none = malformed kind
both kind make none b = malformed kind

-- The switch on the type of a frame.
unfoldable pub process_event : Fields → String → Outcome (Option ProcessStreamEvent)
unfolding both malformed
process_event message kind =
    let sequence = positive_integer (property "sequence" message) in
    let content = as_text (property "data" message) in
    if kind == "stdout"
    then both kind stdout sequence content
    else if kind == "stderr"
    then both kind stderr sequence content
    else if kind == "exit"
    then both kind exit sequence (integer (property "exit_code" message))
    else if kind == "gap"
    then both kind gap (positive_integer (property "from_sequence" message))
        (positive_integer (property "to_sequence" message))
    else ok none

unfoldable pub typed : Fields → Option String → Outcome (Option ProcessStreamEvent)
typed message none = raise (protocol_error "process stream frame type must be a string")
typed message (some kind) = process_event message kind

unfoldable pub of_object : Outcome Fields → Outcome (Option ProcessStreamEvent)
of_object (raise e) = raise e
of_object (ok message) = typed message (as_text (property "type" message))

unfoldable pub parse_process_stream_event :
    (String → Option Value) → FrameData → Outcome (Option ProcessStreamEvent)
unfolding process_event typed of_object
parse_process_stream_event json_parse frame = of_object (parse_json_object json_parse frame)
