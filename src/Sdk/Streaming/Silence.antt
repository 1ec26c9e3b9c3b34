-- ===== src/Sdk/Streaming/Silence.antt =====
-- A stream that has ended leaves its socket and its listeners alone.
use fissionplane.Prelude.{
  ℕ, ◌≡◌, refl, inl, inr, true, String, some, none, List, [], ◌∷◌, ◌++◌, append-nil, arith,
  Bool-cases, Option-cases, List-cases, ◌==◌,
}
use fissionplane.Sdk.Errors.{Thrown}
use fissionplane.Sdk.Effect.{ok, raise}
use fissionplane.Sdk.Streaming.{
  Stream, Input, Action, done, rejected, resolved, new_stream, clear_handshake, finish, fail, close,
  send, next, subscribe, unsubscribe, flush, receive, on_open, on_handshake_timeout, on_message,
  step, run, opens, message, socket_closes, aborts, iterates, returns, user_closes, socket_fails,
  handshake_expires, listens, leaves, user_sends,
}
use fissionplane.Sdk.Streaming.Log.{
  frames, frames-append, closings, closings-append, notices, notices-append,
}
use fissionplane.Sdk.Streaming.Rules.{run-Survives}
use fissionplane.Sdk.Streaming.Invariant.{IsValid, IsValid-SurvivesAll, new_stream-IsValid}

module _ {T : Type 0} where
  abbrev IsQuiet : Action T → Type 0
  IsQuiet a = (frames (a ∷ []) ≡ []) × (closings (a ∷ []) ≡ 0) × (notices (a ∷ []) ≡ 0)

  -- `next` on an ended stream settles one promise.
  log-next :
      (s : Stream T)
      → s.ended ≡ true
      → (a : Action T) × IsQuiet a × ((next s).log ≡ s.log ++ a ∷ [])
  unfolding next
  log-next s over = elim (List-cases s.queue) [
    | inr (event, rest, first) ↦ (resolved s.calls event, (refl, refl, refl), simp first)
    | inl empty ↦ elim (Option-cases s.failure) [
      | inr (e, failed) ↦ (rejected e s.calls, (refl, refl, refl), simp (empty, failed))
      | inl sound ↦ (done s.calls, (refl, refl, refl), simp (empty, sound, over))
    ]
  ]

  -- An ended stream whose log shows these calls on the socket and on listeners.
  record Silent (fs : List String) (c n : ℕ) (s : Stream T) : Type 0 where
    valid : IsValid s
    over : s.ended ≡ true
    sends : frames s.log ≡ fs
    closes : closings s.log ≡ c
    calls : notices s.log ≡ n

  module _ {fs : List String} {c n : ℕ} where
    Silent-next : (s : Stream T) → Silent fs c n s → Silent fs c n (next s)
    unfolding next
    Silent-next s h =
        let (a, (no_frame, no_closing, no_notice), grows) = log-next s h.over in
        record {
          valid = IsValid-SurvivesAll.pulling s h.valid;
          over = ground (arith, h.over);
          sends = rw grows (simp (frames-append, no_frame, append-nil) h.sends);
          closes = rw grows (omega (arith, closings-append s.log (a ∷ []), h.closes));
          calls = rw grows (omega (arith, notices-append s.log (a ∷ []), h.calls));
        }

    Silent-fail : (e : Thrown) (s : Stream T) → Silent fs c n s → Silent fs c n (fail e s)
    unfolding fail
    Silent-fail e s h = simp h.over h

    Silent-clear : (s : Stream T) → Silent fs c n s → Silent fs c n (clear_handshake s)
    unfolding clear_handshake
    Silent-clear s h = record {
      valid = IsValid-SurvivesAll.clearing s h.valid;
      over = h.over;
      sends = h.sends;
      closes = h.closes;
      calls = h.calls;
    }

    Silent-flush : (s : Stream T) → Silent fs c n s → Silent fs c n (flush s)
    unfolding flush
    Silent-flush s h =
        let nothing = (h.valid.settled h.over).0 in
        record {
          valid = IsValid-SurvivesAll.flushing s h.valid;
          over = h.over;
          sends = simp (nothing, append-nil) h.sends;
          closes = simp (nothing, append-nil) h.closes;
          calls = simp (nothing, append-nil) h.calls;
        }

    Silent-on_open :
        (protocol : String) (s : Stream T) → Silent fs c n s → Silent fs c n (on_open protocol s)
    unfolding on_open
    Silent-on_open protocol s h = elim (Bool-cases (protocol == "fissionplane.v1")) [
      | inl agreed ↦ simp agreed (Silent-flush (clear_handshake s) (Silent-clear s h))
      | inr refused ↦ simp refused (Silent-fail _ (clear_handshake s) (Silent-clear s h))
    ]

    Silent-step : (i : Input T) (s : Stream T) → Silent fs c n s → Silent fs c n (step i s)
    unfolding step on_message receive fail close finish send on_handshake_timeout subscribe
        unsubscribe
    Silent-step (opens protocol) s h = Silent-on_open protocol s h
    Silent-step (message behave (ok (some event))) s h = simp h.over h
    Silent-step (message behave (ok none)) s h = h
    Silent-step (message behave (raise e)) s h = Silent-fail e s h
    Silent-step socket_closes s h = simp h.over h
    Silent-step (socket_fails e) s h = Silent-fail e s h
    Silent-step (handshake_expires ms) s h = simp ((h.valid.settled h.over).2) h
    Silent-step aborts s h = simp h.over h
    Silent-step (listens l) s h = record {
      valid = IsValid-SurvivesAll.joining l s h.valid;
      over = ground (arith, h.over);
      sends = ground (arith, h.sends);
      closes = ground (arith, h.closes);
      calls = ground (arith, h.calls);
    }
    Silent-step (leaves l) s h = record {
      valid = IsValid-SurvivesAll.leaving l s h.valid;
      over = h.over;
      sends = h.sends;
      closes = h.closes;
      calls = h.calls;
    }
    Silent-step iterates s h = Silent-next s h
    Silent-step returns s h = simp h.over h
    Silent-step user_closes s h = simp h.over h
    Silent-step (user_sends frame) s h = simp h.over h

    Silent-run : (is : List (Input T)) (s : Stream T) → Silent fs c n s → Silent fs c n (run is s)
    unfolding run
    Silent-run [] s h = h
    Silent-run (i ∷ is) s h = Silent-run is (step i s) (Silent-step i s h)

  -- Once a stream has ended it stays so, and no later input sends a frame, closes the socket or
  -- calls a listener.
  pub run-silent :
      (ms : ℕ) (before after : List (Input T))
      → let s = run before (new_stream {T = T} ms) in
        s.ended ≡ true
        → ((run after s).ended ≡ true)
          × (frames (run after s).log ≡ frames s.log)
          × (closings (run after s).log ≡ closings s.log)
          × (notices (run after s).log ≡ notices s.log)
  run-silent ms before after over =
      let s = run before (new_stream {T = T} ms) in
      let valid = run-Survives IsValid-SurvivesAll before (new_stream ms) (new_stream-IsValid ms) in
      let h =
        Silent-run after s
          (record { valid = valid; over = over; sends = refl; closes = refl; calls = refl }) in
      (h.over, h.sends, h.closes, h.calls)
