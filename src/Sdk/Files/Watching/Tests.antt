-- ===== src/Sdk/Files/Watching/Tests.antt =====
-- The frame of a move.
use fissionplane.Prelude.{◌≡◌, refl, String, Option, some, arith}
use fissionplane.Sdk.Value.{Value, object}
use fissionplane.Sdk.Effect.{ok}
use fissionplane.Sdk.Frames.{text_frame}
use fissionplane.Sdk.Files.Watching.{FileWatchEvent, moved, file, parse_file_watch_event}
use fissionplane.Sdk.Files.Watching.Frames.{watch_frame, parse_file_watch_event-watch_frame}

abbrev renaming : FileWatchEvent
renaming = moved 3 "/b" "/a" file

abbrev json_parse : String → Option Value
json_parse s = some (object (watch_frame renaming))

parse_file_watch_event-watch_frame_example :
    parse_file_watch_event json_parse (text_frame "frame") ≡ ok (some renaming)
parse_file_watch_event-watch_frame_example =
    parse_file_watch_event-watch_frame json_parse "frame" renaming (omega arith) refl
