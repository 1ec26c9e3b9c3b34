-- ===== src/Sdk/Files/Watching.antt =====
-- files.ts: the events of a watched directory, parseFileWatchEvent.
pub mod Frames
mod Tests
use Prim.Native.String.{◌++◌}
use fissionplane.Prelude.{ℕ, Bool, ◌||◌, String, Option, none, some, ◌==◌, if◌then◌else◌}
use fissionplane.Sdk.Value.{Value, Fields, property, as_text}
use fissionplane.Sdk.Errors.{protocol_error}
use fissionplane.Sdk.Effect.{Outcome, ok, raise}
use fissionplane.Sdk.Frames.{FrameData, parse_json_object, positive_integer}

-- FileKind.
pub data FileKind : Type 0 where
  file directory symlink other : FileKind

-- FileWatchEvent: the three kinds of change that carry one path, a move, and an overflow.
pub data Change : Type 0 where
  created modified removed : Change

pub data FileWatchEvent : Type 0 where
  changed : Change → ℕ → String → FileKind → FileWatchEvent
  moved : ℕ → String → String → FileKind → FileWatchEvent
  overflow : ℕ → FileWatchEvent

-- isFileKind, as the kind that it lets through.
unfoldable pub file_kind : Option String → Option FileKind
file_kind none = none
file_kind (some s) =
    if s == "file"
    then some file
    else if s == "directory"
    then some directory
    else if s == "symlink"
    then some symlink
    else if s == "other"
    then some other
    else none

unfoldable pub malformed_watch : {A : Type 0} → String → Outcome A
malformed_watch kind = raise (protocol_error ("malformed known " ++ kind ++ " frame"))

unfoldable pub changed_event :
    String → Change → Option ℕ → Option String → Option FileKind → Outcome (Option FileWatchEvent)
unfolding malformed_watch
changed_event type change (some sequence) (some path) (some kind) =
    ok (some (changed change sequence path kind))
changed_event type change _ _ _ = malformed_watch type

unfoldable pub moved_event :
    Option ℕ → Option String → Option String → Option FileKind → Outcome (Option FileWatchEvent)
unfolding malformed_watch
moved_event (some sequence) (some path) (some old_path) (some kind) =
    ok (some (moved sequence path old_path kind))
moved_event _ _ _ _ = malformed_watch "moved"

unfoldable pub overflow_event : Option ℕ → Outcome (Option FileWatchEvent)
unfolding malformed_watch
overflow_event (some sequence) = ok (some (overflow sequence))
overflow_event none = malformed_watch "overflow"

-- The switch on the type; an unknown type is no event.
unfoldable pub watch_event : Fields → String → Outcome (Option FileWatchEvent)
unfolding changed_event moved_event overflow_event file_kind
watch_event message type =
    let sequence = positive_integer (property "sequence" message) in
    let path = as_text (property "path" message) in
    let kind = file_kind (as_text (property "kind" message)) in
    if type == "created"
    then changed_event type created sequence path kind
    else if type == "modified"
    then changed_event type modified sequence path kind
    else if type == "removed"
    then changed_event type removed sequence path kind
    else if type == "moved"
    then moved_event sequence path (as_text (property "old_path" message)) kind
    else if type == "overflow"
    then overflow_event sequence
    else ok none

unfoldable pub watch_typed : Fields → Option String → Outcome (Option FileWatchEvent)
unfolding watch_event
watch_typed message none = raise (protocol_error "file watch frame type must be a string")
watch_typed message (some type) = watch_event message type

unfoldable pub watch_object : Outcome Fields → Outcome (Option FileWatchEvent)
unfolding watch_typed
watch_object (raise e) = raise e
watch_object (ok message) = watch_typed message (as_text (property "type" message))

unfoldable pub parse_file_watch_event :
    (String → Option Value) → FrameData → Outcome (Option FileWatchEvent)
unfolding watch_object
parse_file_watch_event json_parse frame = watch_object (parse_json_object json_parse frame)
