-- ===== src/Sdk/Files/Watching/Frames.antt =====
-- files.ts: the frames of a watched directory, written and read back.
use fissionplane.Prelude.{ℕ, ◌<◌, ◌≡◌, refl, String, Option, some, arith}
use fissionplane.Sdk.Value.{Value, pos, text, number, object, Fields, end, field, property}
use fissionplane.Sdk.Effect.{ok}
use fissionplane.Sdk.Frames.{text_frame, parse_json_object, object_of, positive_integer}
use fissionplane.Sdk.Files.Watching.{
  FileKind, file, directory, symlink, other, Change, created, modified, removed, FileWatchEvent,
  changed, moved, overflow, file_kind, changed_event, moved_event, overflow_event, watch_event,
  watch_typed, watch_object, parse_file_watch_event,
}

-- The frame of an event, as the agent writes it.
unfoldable pub kind_name : FileKind → String
kind_name file = "file"
kind_name directory = "directory"
kind_name symlink = "symlink"
kind_name other = "other"

unfoldable pub change_name : Change → String
change_name created = "created"
change_name modified = "modified"
change_name removed = "removed"

unfoldable pub watch_frame : FileWatchEvent → Fields
unfolding kind_name change_name
watch_frame (changed change sequence path kind) = field "type" (text (change_name change)) (
    field "sequence" (number (pos sequence))
      (field "path" (text path) (field "kind" (text (kind_name kind)) end)))
watch_frame (moved sequence path old_path kind) = field "type" (text "moved") (
    field "sequence" (number (pos sequence)) (
      field "path" (text path)
        (field "old_path" (text old_path) (field "kind" (text (kind_name kind)) end))))
watch_frame (overflow sequence) =
    field "type" (text "overflow") (field "sequence" (number (pos sequence)) end)

abbrev pub sequence_of : FileWatchEvent → ℕ
sequence_of (changed change sequence path kind) = sequence
sequence_of (moved sequence path old_path kind) = sequence
sequence_of (overflow sequence) = sequence

file_kind-kind_name : (kind : FileKind) → file_kind (some (kind_name kind)) ≡ some kind
unfolding file_kind kind_name
file_kind-kind_name file = refl
file_kind-kind_name directory = refl
file_kind-kind_name symlink = refl
file_kind-kind_name other = refl

positive : (n : ℕ) → 0 < n → positive_integer (some (number (pos n))) ≡ some n
unfolding positive_integer
positive n h = ground (arith, h)

watch_object-watch_frame :
    (event : FileWatchEvent)
    → 0 < sequence_of event
    → watch_object (ok (watch_frame event)) ≡ ok (some event)
unfolding watch_object watch_typed watch_event watch_frame property change_name changed_event
    moved_event overflow_event
watch_object-watch_frame (changed created n path kind) h =
    rw (positive n h, file_kind-kind_name kind) refl
watch_object-watch_frame (changed modified n path kind) h =
    rw (positive n h, file_kind-kind_name kind) refl
watch_object-watch_frame (changed removed n path kind) h =
    rw (positive n h, file_kind-kind_name kind) refl
watch_object-watch_frame (moved n path old_path kind) h =
    rw (positive n h, file_kind-kind_name kind) refl
watch_object-watch_frame (overflow n) h = rw (positive n h) refl

-- Every event with a positive sequence number is read back from its frame.
pub parse_file_watch_event-watch_frame :
    (json_parse : String → Option Value) (s : String) (event : FileWatchEvent)
    → 0 < sequence_of event
    → json_parse s ≡ some (object (watch_frame event))
    → parse_file_watch_event json_parse (text_frame s) ≡ ok (some event)
unfolding parse_file_watch_event parse_json_object object_of
parse_file_watch_event-watch_frame json_parse s event h parsed =
    rw parsed (watch_object-watch_frame event h)
