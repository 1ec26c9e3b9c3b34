-- ===== src/Sdk/Streaming/Invariant.antt =====
-- The invariant of a stream's fields.
use fissionplane.Prelude.{ℕ, ◌≡◌, ◌⊎◌, true, false, String, none, List, [], arith}
use fissionplane.Sdk.Errors.{Thrown}
use fissionplane.Sdk.Streaming.{
  Stream, Input, new_stream, clear_handshake, finish, fail, close, send, next, subscribe,
  unsubscribe, note, deliver, flush, run,
}
use fissionplane.Sdk.Streaming.Rules.{Survives, SurvivesAll, run-Survives}

pub record IsValid {T : Type 0} (s : Stream T) : Type 0 where
  pub settled : s.ended ≡ true → (s.outbound ≡ []) × (s.pending ≡ []) × (s.handshake ≡ false)
  pub sound : s.ended ≡ false → s.failure ≡ none
  pub flushed : s.opened ≡ true → s.outbound ≡ []
  pub exclusive : (s.queue ≡ []) ⊎ (s.pending ≡ [])

module _ {T : Type 0} where
  fail-IsValid : (e : Thrown) (s : Stream T) → IsValid s → IsValid (fail e s)
  unfolding fail
  fail-IsValid e s v = ground arith

  finish-IsValid : (s : Stream T) → IsValid s → IsValid (finish s)
  unfolding finish
  finish-IsValid s v = ground arith

  close-IsValid : (s : Stream T) → IsValid s → IsValid (close s)
  unfolding close
  close-IsValid s v = ground arith

  send-IsValid : (frame : String) (s : Stream T) → IsValid s → IsValid (send frame s)
  unfolding send
  send-IsValid frame s v = ground arith

  next-IsValid : (s : Stream T) → IsValid s → IsValid (next s)
  unfolding next
  next-IsValid s v = ground arith

  deliver-IsValid : (event : T) (s : Stream T) → IsValid s → IsValid (deliver event s)
  unfolding deliver
  deliver-IsValid event s v = ground arith

  unsubscribe-IsValid : (l : ℕ) (s : Stream T) → IsValid s → IsValid (unsubscribe l s)
  unfolding unsubscribe
  unsubscribe-IsValid l s v = ground arith

  note-IsValid : (l : ℕ) (event : T) (s : Stream T) → IsValid s → IsValid (note l event s)
  unfolding note
  note-IsValid l event s v = ground arith

  clear_handshake-IsValid : (s : Stream T) → IsValid s → IsValid (clear_handshake s)
  unfolding clear_handshake
  clear_handshake-IsValid s v = ground arith

  flush-IsValid : (s : Stream T) → IsValid s → IsValid (flush s)
  unfolding flush
  flush-IsValid s v = ground arith

  subscribe-IsValid : (l : ℕ) (s : Stream T) → IsValid s → IsValid (subscribe l s)
  unfolding subscribe
  subscribe-IsValid l s v = ground arith

  IsValid-Survives : Survives {T = T} IsValid
  IsValid-Survives = record {
    fails = fail-IsValid;
    closing = close-IsValid;
    sending = send-IsValid;
    pulling = next-IsValid;
    leaving = unsubscribe-IsValid;
    noting = note-IsValid;
  }

  pub IsValid-SurvivesAll : SurvivesAll {T = T} IsValid
  IsValid-SurvivesAll = record {
    inner = IsValid-Survives;
    finishing = finish-IsValid;
    clearing = clear_handshake-IsValid;
    flushing = flush-IsValid;
    joining = subscribe-IsValid;
    handing = deliver-IsValid;
  }

  pub new_stream-IsValid : (ms : ℕ) → IsValid (new_stream {T = T} ms)
  unfolding new_stream
  new_stream-IsValid ms = ground arith

  -- After any inputs to a new stream, whatever its listeners do while they are called: a stream that
  -- has ended has no timer, no waiting promise and no unsent frame; only such a stream has a
  -- failure; an open one has sent all its frames; and no promise waits while an event is queued.
  pub run-new_stream-IsValid : (ms : ℕ) (is : List (Input T)) → IsValid (run is (new_stream ms))
  run-new_stream-IsValid ms is =
      run-Survives IsValid-SurvivesAll is (new_stream ms) (new_stream-IsValid ms)
