-- ===== src/Sdk/DataPlane/Socket/Native.antt =====
-- dataplane.ts, NativeWebSocketConnection, and the callbacks that streaming.ts sets on a connection.
use fissionplane.Prelude.{ℕ, String, ◌≡◌, refl, Option, none, some}
use fissionplane.Sdk.Errors.{Thrown}
use fissionplane.Sdk.Effect.{Outcome}
use fissionplane.Sdk.Streaming.{
  Behaviour, Stream, Input, opens, message, socket_closes, socket_fails, on_open, on_message,
  finish, fail, step,
}

-- The events of the platform's WebSocket; `D` is the data of a message, and of an error its event.
data NativeEvent (D : Type 0) : Type 0 where
  native_open native_close : NativeEvent D
  native_message native_error : D → NativeEvent D

-- The mutable callbacks; `none` is undefined.
record Callbacks (D W : Type 0) : Type 0 where
  on_open : Option (W → W)
  on_message : Option (D → W → W)
  on_close : Option (W → W)
  on_error : Option (D → W → W)

-- `callback?.()`.
abbrev called : {W : Type 0} → Option (W → W) → W → W
called none w = w
called (some callback) w = callback w

abbrev called_with : {D W : Type 0} → Option (D → W → W) → D → W → W
called_with none data_ w = w
called_with (some callback) data_ w = callback data_ w

-- The listeners that the constructor adds to the socket.
unfoldable forward : {D W : Type 0} → Callbacks D W → NativeEvent D → W → W
forward callbacks native_open = called callbacks.on_open
forward callbacks (native_message data_) = called_with callbacks.on_message data_
forward callbacks native_close = called callbacks.on_close
forward callbacks (native_error event) = called_with callbacks.on_error event

module _ {D T : Type 0} (protocol : String) (behave : ℕ → Behaviour)
    (parse : D → Outcome (Option T)) (thrown : D → Thrown) where
  -- The callbacks of the constructor of StreamingEvents; `protocol` is that of the socket.
  unfoldable stream_callbacks : Callbacks D (Stream T)
  stream_callbacks = record {
    on_open = some (on_open protocol);
    on_message = some (λ data_. on_message behave (parse data_));
    on_close = some finish;
    on_error = some (λ event. fail (thrown event));
  }

  abbrev input_of : NativeEvent D → Input T
  input_of native_open = opens protocol
  input_of (native_message data_) = message behave (parse data_)
  input_of native_close = socket_closes
  input_of (native_error event) = socket_fails (thrown event)

  -- What the platform's socket does reaches a stream as the input of the same kind.
  forward-step :
      (event : NativeEvent D) (s : Stream T)
      → forward stream_callbacks event s ≡ step (input_of event) s
  unfolding forward stream_callbacks step
  forward-step native_open s = refl
  forward-step (native_message data_) s = refl
  forward-step native_close s = refl
  forward-step (native_error event) s = refl
