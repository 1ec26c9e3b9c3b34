-- ===== src/Sdk/Streaming/Tests.antt =====
-- Runs of a stream of numbers.
use fissionplane.Prelude.{
  ℕ, ◌≤◌, ◌≡◌, refl, true, false, none, some, List, [], ◌∷◌, ◌++◌, eqb, if◌then◌else◌,
}
use fissionplane.Sdk.Effect.{ok}
use fissionplane.Sdk.Streaming.{
  Input, Behaviour, closes, sends, opens, message, iterates, listens, user_sends, user_closes,
  new_stream, on_open, run, step, next, on_message, receive, subscribe, flush, send, notify,
  deliver, react_all, react, note, close,
}
use fissionplane.Sdk.Streaming.Log.{delivered, settled, frames, closings, notices}
use fissionplane.Sdk.Streaming.Invariant.{IsValid, run-new_stream-IsValid}
use fissionplane.Sdk.Streaming.Promises.{promises, upto, promises-run}
use fissionplane.Sdk.Streaming.Delivery.{accepted_all, delivered-run}
use fissionplane.Sdk.Streaming.Socket.{closings-run}
use fissionplane.Sdk.Streaming.Silence.{run-silent}
use fissionplane.Sdk.Streaming.Frames.{send_all, frames_in_order}

-- Listener 1 answers an event with a frame; listener 2 closes the stream.
abbrev manners : ℕ → Behaviour
manners l =
    if eqb l 1
    then record { reactions = sends "ack" ∷ []; throws = none }
    else record { reactions = closes ∷ []; throws = none }

abbrev dialogue : List (Input ℕ)
dialogue =
    user_sends "hello"
    ∷ iterates
    ∷ listens 1
    ∷ opens "fissionplane.v1"
    ∷ message manners (ok (some 7))
    ∷ message manners (ok (some 8))
    ∷ listens 2
    ∷ message manners (ok (some 9))
    ∷ iterates
    ∷ iterates
    ∷ message manners (ok (some 10))
    ∷ iterates
    ∷ []

dialogue_delivers :
    (delivered (run dialogue (new_stream 60000)).log ≡ 7 ∷ 8 ∷ 9 ∷ [])
    × (frames (run dialogue (new_stream {T = ℕ} 60000)).log ≡ "hello" ∷ "ack" ∷ "ack" ∷ "ack" ∷ [])
unfolding run new_stream step next on_message receive subscribe on_open flush send notify deliver
    react_all react note close
dialogue_delivers = (refl, refl)

run-new_stream-IsValid_example : IsValid (run dialogue (new_stream 60000))
run-new_stream-IsValid_example = run-new_stream-IsValid 60000 dialogue

promises-run_example :
    let s = run dialogue (new_stream {T = ℕ} 60000) in
    (promises s ≡ upto s.calls) × (s.ended ≡ true → settled s.log ≡ upto s.calls)
promises-run_example = promises-run 60000 dialogue

delivered-run_example :
    let s = run dialogue (new_stream {T = ℕ} 60000) in
    delivered s.log ++ s.queue ≡ accepted_all dialogue (new_stream 60000)
delivered-run_example = delivered-run 60000 dialogue

closings-run_example :
    let s = run dialogue (new_stream {T = ℕ} 60000) in
    (closings s.log ≤ 1) × (s.ended ≡ false → closings s.log ≡ 0)
closings-run_example = closings-run 60000 dialogue

run-silent_example :
    let s = run (user_closes ∷ []) (new_stream {T = ℕ} 60000) in
    ((run dialogue s).ended ≡ true)
    × (frames (run dialogue s).log ≡ frames s.log)
    × (closings (run dialogue s).log ≡ closings s.log)
    × (notices (run dialogue s).log ≡ notices s.log)
unfolding run new_stream step close
run-silent_example = run-silent 60000 (user_closes ∷ []) dialogue refl

frames_in_order_example :
    frames
      (send_all
        ("c" ∷ [])
        (on_open "fissionplane.v1" (send_all ("a" ∷ "b" ∷ []) (new_stream {T = ℕ} 0)))).log
    ≡ "a" ∷ "b" ∷ "c" ∷ []
unfolding new_stream
frames_in_order_example =
    frames_in_order ("a" ∷ "b" ∷ []) ("c" ∷ []) (new_stream {T = ℕ} 0) refl refl
