-- ===== src/Sdk/Streaming.antt =====
-- src/sdks/typescript/src/streaming.ts, StreamingEvents: a WebSocket stream as a state machine. A
-- callback of the socket, a timer, a signal or the caller is one input; what the stream does to the
-- socket, to its listeners and to the promises that `next` returned is the log, oldest first.
mod State
pub mod Log
pub mod Rules
pub mod Invariant
pub mod Delivery
pub mod Promises
pub mod Socket
pub mod Silence
pub mod Frames
mod Tests
pub use State.*
use Prim.Native.String
use fissionplane.Prelude.{
  ℕ, suc, Bool, true, false, String, Option, none, some, List, [], ◌∷◌, ◌++◌, map, eqb, ltb, not,
  ◌||◌, ◌==◌, any, if◌then◌else◌, decimal, or_else,
}
use fissionplane.Sdk.Errors.{Thrown, fission, protocol_error, plain_error}
use fissionplane.Sdk.Effect.{Outcome, ok, raise}

remove : ℕ → List ℕ → List ℕ
remove l [] = []
remove l (k ∷ ks) = if eqb k l then ks else k ∷ remove l ks

abbrev has : ℕ → List ℕ → Bool
has l = any (λ k. eqb k l)

handshake_message : ℕ → String
handshake_message ms =
    String.◌++◌ "WebSocket handshake did not complete within " (String.◌++◌ (decimal ms) "ms")

handshake_error : ℕ → Thrown
unfolding handshake_message
handshake_error ms = fission (record (plain_error (handshake_message ms)) {
  code = some "handshake_timeout";
  retryable = true;
})

module _ {T : Type 0} where
  -- The constructor; `ms` is handshakeTimeoutMs, zero for none.
  unfoldable pub new_stream : ℕ → Stream T
  new_stream ms = record {
    listeners = [];
    queue = [];
    pending = [];
    outbound = [];
    handshake = ltb 0 ms;
    opened = false;
    ended = false;
    failure = none;
    calls = 0;
    log = [];
  }

  unfoldable pub clear_handshake : Stream T → Stream T
  clear_handshake s = record s { handshake = false }

  unfoldable pub finish : Stream T → Stream T
  unfolding clear_handshake
  finish s = if s.ended then s else record s {
    handshake = false;
    ended = true;
    outbound = [];
    pending = [];
    log = s.log ++ map done s.pending;
  }

  unfoldable pub fail : Thrown → Stream T → Stream T
  fail e s = if s.ended then s else record s {
    handshake = false;
    failure = some e;
    ended = true;
    outbound = [];
    pending = [];
    log = s.log ++ (map (rejected e) s.pending ++ closed ∷ []);
  }

  unfoldable pub close : Stream T → Stream T
  unfolding finish
  close s = if s.ended then s else let s' = finish s in record s' { log = s'.log ++ closed ∷ [] }

  -- `send` of a frame that JSON.stringify has encoded.
  unfoldable pub send : String → Stream T → Stream T
  send frame s =
      if s.ended
      then s
      else if s.opened
      then record s { log = s.log ++ sent frame ∷ [] }
      else record s { outbound = s.outbound ++ frame ∷ [] }

  -- `onEvent`, and the function that it returns. A Set keeps one copy of a listener.
  unfoldable pub subscribe : ℕ → Stream T → Stream T
  subscribe l s = if has l s.listeners then s else record s { listeners = s.listeners ++ l ∷ [] }

  unfoldable pub unsubscribe : ℕ → Stream T → Stream T
  unfolding remove
  unsubscribe l s = record s { listeners = remove l s.listeners }

  -- `next` with an empty queue: a failure, the end, or a promise that waits.
  unfoldable pub next_empty : Option Thrown → Stream T → Stream T
  next_empty (some e) s = record s { calls = suc s.calls; log = s.log ++ rejected e s.calls ∷ [] }
  next_empty none s =
      if s.ended
      then record s { calls = suc s.calls; log = s.log ++ done s.calls ∷ [] }
      else record s { calls = suc s.calls; pending = s.pending ++ s.calls ∷ [] }

  unfoldable pub next_from : List T → Stream T → Stream T
  next_from [] s = next_empty s.failure s
  next_from (event ∷ rest) s = record s {
    queue = rest;
    calls = suc s.calls;
    log = s.log ++ resolved s.calls event ∷ [];
  }

  -- `next` of the async iterator.
  unfoldable pub next : Stream T → Stream T
  unfolding next_from next_empty
  next s = next_from s.queue s

  unfoldable pub react : Reaction → Stream T → Stream T
  react closes s = close s
  react pulls s = next s
  react (sends frame) s = send frame s
  react (unsubscribes l) s = unsubscribe l s

  unfoldable pub react_all : List Reaction → Stream T → Stream T
  react_all [] s = s
  react_all (r ∷ rs) s = react_all rs (react r s)

  unfoldable pub note : ℕ → T → Stream T → Stream T
  note l event s = record s { log = s.log ++ notified l event ∷ [] }

  -- The loop of `receive` over the listeners: one that was removed meanwhile is skipped, and one
  -- that throws ends the loop.
  unfoldable pub notify : (ℕ → Behaviour) → T → List ℕ → Stream T → Stream T × Option Thrown
  notify behave event [] s = (s, none)
  notify behave event (l ∷ ls) s =
      let s' = react_all (behave l).reactions (note l event s) in
      let rest = notify behave event ls s' in
      let skipped = notify behave event ls s in
      if has l s.listeners
      then elim (behave l).throws [ some e ↦ (s', some e) | none ↦ rest ]
      else skipped

  unfoldable pub deliver_to : List ℕ → T → Stream T → Stream T
  deliver_to [] event s = record s { queue = s.queue ++ event ∷ [] }
  deliver_to (p ∷ rest) event s = record s { pending = rest; log = s.log ++ resolved p event ∷ [] }

  -- The end of `receive`: the oldest waiting promise, or the queue.
  unfoldable pub deliver : T → Stream T → Stream T
  unfolding deliver_to
  deliver event s = deliver_to s.pending event s

  conclude : T → Stream T × Option Thrown → Stream T
  conclude event (s, none) = deliver event s
  conclude event (s, some e) = fail e s

  -- `receive` of a parsed event, with the catch of `onMessage` around it.
  unfoldable pub receive : (ℕ → Behaviour) → T → Stream T → Stream T
  unfolding conclude
  receive behave event s = if s.ended then s else conclude event (notify behave event s.listeners s)

  -- `onMessage`: the frame as `parse` read it.
  unfoldable pub on_message : (ℕ → Behaviour) → Outcome (Option T) → Stream T → Stream T
  on_message behave (raise e) s = fail e s
  on_message behave (ok none) s = s
  on_message behave (ok (some event)) s = receive behave event s

  unfoldable pub flush : Stream T → Stream T
  flush s = record s { opened = true; outbound = []; log = s.log ++ map sent s.outbound }

  unfoldable pub on_open : String → Stream T → Stream T
  unfolding clear_handshake
  on_open protocol s =
      if protocol == "fissionplane.v1"
      then flush (clear_handshake s)
      else fail (protocol_error "server did not select fissionplane.v1") (clear_handshake s)

  -- The handshake timer; a timer that was cleared does not fire.
  unfoldable pub on_handshake_timeout : ℕ → Stream T → Stream T
  unfolding handshake_error
  on_handshake_timeout ms s = if s.handshake then fail (handshake_error ms) s else s

pub data Input (T : Type 0) : Type 0 where
  opens : String → Input T
  message : (ℕ → Behaviour) → Outcome (Option T) → Input T
  socket_closes aborts iterates returns user_closes : Input T
  socket_fails : Thrown → Input T
  handshake_expires : ℕ → Input T
  listens leaves : ℕ → Input T
  user_sends : String → Input T

module _ {T : Type 0} where
  unfoldable pub step : Input T → Stream T → Stream T
  step (opens protocol) s = on_open protocol s
  step (message behave parsed) s = on_message behave parsed s
  step socket_closes s = finish s
  step (socket_fails e) s = fail e s
  step (handshake_expires ms) s = on_handshake_timeout ms s
  step aborts s = close s
  step (listens l) s = subscribe l s
  step (leaves l) s = unsubscribe l s
  step iterates s = next s
  step returns s = close s
  step user_closes s = close s
  step (user_sends frame) s = send frame s

  unfoldable pub run : List (Input T) → Stream T → Stream T
  run [] s = s
  run (i ∷ is) s = run is (step i s)
