-- ===== src/Sdk/Commands/Attaching.antt =====
-- commands.ts: attaching to a process, the control frames of a ProcessAttachment, and ProcessHandle.
use fissionplane.Prelude.{
  ℕ, String, Option, none, some, List, [], ◌∷◌, or_else, if◌then◌else◌, decimal,
}
use Prim.Native.String.{◌++◌}
use fissionplane.Sdk.Value.{Value, Number, pos, text, number, object, end, field}
use fissionplane.Sdk.Errors.{range_error}
use fissionplane.Sdk.Effect.{Eff, ◌>>=◌, pure, throw}
use fissionplane.Sdk.Http.{RequestOptions, RequestPipeline}
use fissionplane.Sdk.Frames.{is_non_negative_integer}
use fissionplane.Sdk.Streaming.{Stream, new_stream}
use fissionplane.Sdk.Streaming
use fissionplane.Sdk.DataPlane.Calls.{Connection}
use fissionplane.Sdk.DataPlane.Requests.{read_items}
use fissionplane.Sdk.DataPlane.Socket.{SocketPlatform, open_data_plane_web_socket}
use fissionplane.Sdk.Commands.{ProcessStreamEvent}
use fissionplane.Sdk.Commands.Operations.{get_process, logs, kill}

-- The handshake limit of `streamOptions`; a signal of the options is an input of the stream.
abbrev pub handshake_timeout : {W : Type 0} → RequestPipeline W → Option RequestOptions → ℕ
handshake_timeout requests none = requests.request_timeout_ms
handshake_timeout requests (some options) =
    or_else options.request_timeout_ms requests.request_timeout_ms

-- `String(after)` of a number that passed the test.
abbrev pub printed : Number → String
printed (pos n) = decimal n
printed _ = ""

module _ {W S : Type 0} (platform : SocketPlatform W S)
    (factory : Option (String → List (List ℕ) → Eff W S)) (c : Connection W) where
  unfoldable pub attach_at :
      ℕ → Number → Option RequestOptions → Eff W (S × Stream ProcessStreamEvent)
  attach_at pid after options = do
    socket ←
        open_data_plane_web_socket platform c.sandbox c.agent_port factory
          ("/processes/" ++ decimal pid ++ "/stream") (("after", printed after) ∷ [])
    pure (socket, new_stream (handshake_timeout c.requests options))

  -- Commands.attach; `after` is that of the options.
  unfoldable pub attach :
      ℕ → Option Number → Option RequestOptions → Eff W (S × Stream ProcessStreamEvent)
  unfolding attach_at
  attach pid after options =
      if is_non_negative_integer (or_else after (pos 0))
      then attach_at pid (or_else after (pos 0)) options
      else throw (range_error "after must be a non-negative integer")

-- The frames of ProcessAttachment, as JSON.stringify encodes them.
abbrev pub input_frame : String → Value
input_frame data_ = object (field "type" (text "input") (field "data" (text data_) end))

abbrev pub close_stdin_frame : Value
close_stdin_frame = object (field "type" (text "close_stdin") end)

abbrev pub resize_frame : Number → Number → Value
resize_frame cols rows =
    object
      (field "type" (text "resize") (field "cols" (number cols) (field "rows" (number rows) end)))

abbrev pub signal_frame : String → Value
signal_frame signal = object (field "type" (text "signal") (field "signal" (text signal) end))

module _ (stringify : Value → String) where
  unfoldable pub send_input : String → Stream ProcessStreamEvent → Stream ProcessStreamEvent
  send_input data_ = Streaming.send (stringify (input_frame data_))

  unfoldable pub close_stdin : Stream ProcessStreamEvent → Stream ProcessStreamEvent
  close_stdin = Streaming.send (stringify close_stdin_frame)

  unfoldable pub resize : Number → Number → Stream ProcessStreamEvent → Stream ProcessStreamEvent
  resize cols rows = Streaming.send (stringify (resize_frame cols rows))

  unfoldable pub signal : String → Stream ProcessStreamEvent → Stream ProcessStreamEvent
  signal name = Streaming.send (stringify (signal_frame name))

-- A ProcessHandle; `pid` reads its info, whose number `as_pid` is.
pub record ProcessHandle (W : Type 0) : Type 0 where
  pub commands : Connection W
  pub info : W → Option Value
  pub set_info : Option Value → W → W
  pub as_pid : Option Value → ℕ

-- Commands.get; `new_handle` is the constructor of ProcessHandle.
unfoldable pub get :
    {W : Type 0}
    → (Connection W → Option Value → Eff W (ProcessHandle W))
    → Connection W
    → ℕ
    → Option RequestOptions
    → Eff W (ProcessHandle W)
get new_handle c id options = do info ← get_process c id options; new_handle c info

module _ {W : Type 0} (handle : ProcessHandle W) where
  unfoldable pub pid : Eff W ℕ
  pid = do value ← λ w. read_items "pid" (handle.info w) w; pure (handle.as_pid value)

  unfoldable pub refresh : Option RequestOptions → Eff W (Option Value)
  refresh options = do
    id ← pid
    info ← get_process handle.commands id options
    λ w. pure info (handle.set_info info w)

  unfoldable pub handle_logs : Option Value → Option RequestOptions → Eff W (Option Value)
  handle_logs after options = do id ← pid; logs handle.commands id after options

  unfoldable pub handle_kill : Option Value → Option RequestOptions → Eff W (Option Value)
  handle_kill name options = do id ← pid; kill handle.commands id name options

-- ProcessHandle.attach.
unfoldable pub handle_attach :
    {W S : Type 0}
    → SocketPlatform W S
    → Option (String → List (List ℕ) → Eff W S)
    → ProcessHandle W
    → Option Number
    → Option RequestOptions
    → Eff W (S × Stream ProcessStreamEvent)
unfolding pid
handle_attach platform factory handle after options = do
  id ← pid handle
  attach platform factory handle.commands id after options
