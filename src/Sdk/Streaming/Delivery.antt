-- ===== src/Sdk/Streaming/Delivery.antt =====
-- The events of a stream reach the iterator in order, none lost and none twice.
use fissionplane.Prelude.{
  ℕ, ◌≡◌, refl, sym, ◌∙◌, ap, inl, inr, String, Option, some, none, List, [], ◌∷◌, ◌++◌,
  append_assoc, append-nil, arith, Bool-cases, Option-cases, List-cases, if◌then◌else◌, ◌==◌,
}
use fissionplane.Sdk.Errors.{Thrown}
use fissionplane.Sdk.Effect.{ok, raise}
use fissionplane.Sdk.Streaming.{
  Stream, Input, new_stream, clear_handshake, finish, fail, close, send, next, subscribe,
  unsubscribe, note, deliver, flush, notify, conclude, receive, on_open, on_handshake_timeout,
  on_message, step, run, Behaviour, opens, message, socket_closes, aborts, iterates, returns,
  user_closes, socket_fails, handshake_expires, listens, leaves, user_sends,
}
use fissionplane.Sdk.Streaming.Log.{
  delivered, delivered-append, delivered-done, delivered-rejected, delivered-sent,
}
use fissionplane.Sdk.Streaming.Rules.{Survives, notify-Survives, step-Survives}
use fissionplane.Sdk.Streaming.Invariant.{IsValid, IsValid-SurvivesAll, new_stream-IsValid}

ruleset handing =
    (delivered-append, delivered-done, delivered-rejected, delivered-sent, append-nil, append_assoc)

module _ {T : Type 0} where
  -- The events that the iterator has had, and those that wait for it.
  abbrev pub handed : Stream T → List T
  handed s = delivered s.log ++ s.queue

  handed-fail : (e : Thrown) (s : Stream T) → handed (fail e s) ≡ handed s
  unfolding fail
  handed-fail e s = elim (Bool-cases s.ended) [
    | inl over ↦ simp over
    | inr live ↦ simp (live, handing)
  ]

  handed-finish : (s : Stream T) → handed (finish s) ≡ handed s
  unfolding finish
  handed-finish s = elim (Bool-cases s.ended) [
    | inl over ↦ simp over
    | inr live ↦ simp (live, handing)
  ]

  handed-close : (s : Stream T) → handed (close s) ≡ handed s
  unfolding close
  handed-close s = elim (Bool-cases s.ended) [
    | inl over ↦ simp over
    | inr live ↦ simp (live, handing)
  ]

  handed-send : (frame : String) (s : Stream T) → handed (send frame s) ≡ handed s
  unfolding send
  handed-send frame s = elim (Bool-cases s.ended) [
    | inl over ↦ simp over
    | inr live ↦ elim (Bool-cases s.opened) [
      | inl open_ ↦ simp (live, open_, handing)
      | inr closed ↦ simp (live, closed)
    ]
  ]

  handed-next : (s : Stream T) → handed (next s) ≡ handed s
  unfolding next
  handed-next s = elim (List-cases s.queue) [
    | inr (event, rest, first) ↦ simp (first, handing)
    | inl empty ↦ elim (Option-cases s.failure) [
      | inr (e, failed) ↦ simp (empty, failed, handing)
      | inl sound ↦ elim (Bool-cases s.ended) [
        | inl over ↦ simp (empty, sound, over, handing)
        | inr live ↦ simp (empty, sound, live)
      ]
    ]
  ]

  handed-deliver :
      (event : T) (s : Stream T) → IsValid s → handed (deliver event s) ≡ handed s ++ event ∷ []
  unfolding deliver
  handed-deliver event s v = elim (List-cases s.pending) [
    | inl nobody ↦ simp (nobody, append_assoc)
    | inr (p, rest, first) ↦ let idle : s.queue ≡ [] = ground arith in simp (first, idle, handing)
  ]

  handed-note : (l : ℕ) (event : T) (s : Stream T) → handed (note l event s) ≡ handed s
  unfolding note
  handed-note l event s = simp handing

  handed-flush : (s : Stream T) → handed (flush s) ≡ handed s
  unfolding flush
  handed-flush s = simp handing

  handed-subscribe : (l : ℕ) (s : Stream T) → handed (subscribe l s) ≡ handed s
  unfolding subscribe
  handed-subscribe l s = ground arith

  -- A stream that is valid and has been handed these events.
  record Holds (events : List T) (s : Stream T) : Type 0 where
    valid : IsValid s
    all : handed s ≡ events

  Holds-Survives : (events : List T) → Survives (Holds events)
  unfolding unsubscribe
  Holds-Survives events = record {
    fails = λ e s h. record {
      valid = IsValid-SurvivesAll.fails e s h.valid;
      all = handed-fail e s ∙ h.all;
    };
    closing = λ s h. record {
      valid = IsValid-SurvivesAll.closing s h.valid;
      all = handed-close s ∙ h.all;
    };
    sending = λ f s h. record {
      valid = IsValid-SurvivesAll.sending f s h.valid;
      all = handed-send f s ∙ h.all;
    };
    pulling = λ s h. record {
      valid = IsValid-SurvivesAll.pulling s h.valid;
      all = handed-next s ∙ h.all;
    };
    leaving = λ l s h. record { valid = IsValid-SurvivesAll.leaving l s h.valid; all = h.all };
    noting = λ l e s h. record {
      valid = IsValid-SurvivesAll.noting l e s h.valid;
      all = handed-note l e s ∙ h.all;
    };
  }

  -- The event that an input hands over: none unless the stream is live when the event comes in and
  -- no listener throws.
  abbrev pub unless_thrown : T → Option Thrown → List T
  unless_thrown event none = event ∷ []
  unless_thrown event (some e) = []

  abbrev pub accepted : Input T → Stream T → List T
  accepted (message behave (ok (some event))) s =
      if s.ended then [] else unless_thrown event (notify behave event s.listeners s).1
  accepted _ s = []

  abbrev pub accepted_all : List (Input T) → Stream T → List T
  accepted_all [] s = []
  accepted_all (i ∷ is) s = accepted i s ++ accepted_all is (step i s)

  handed-conclude :
      (events : List T) (event : T) (r : Stream T × Option Thrown)
      → Holds events r.0
      → handed (conclude event r) ≡ events ++ unless_thrown event r.1
  unfolding conclude
  handed-conclude events event (s, none) h =
      handed-deliver event s h.valid ∙ ap (λ es. es ++ event ∷ []) h.all
  handed-conclude events event (s, some e) h = handed-fail e s ∙ h.all ∙ sym (append-nil events)

  handed-receive :
      (behave : ℕ → Behaviour) (event : T) (s : Stream T)
      → IsValid s
      → handed (receive behave event s) ≡ handed s ++ accepted (message behave (ok (some event))) s
  unfolding receive
  handed-receive behave event s v = elim (Bool-cases s.ended) [
    | inl over ↦ simp (over, append-nil)
    | inr live ↦ simp live (
        handed-conclude (handed s) event (notify behave event s.listeners s) (
          notify-Survives (Holds-Survives (handed s)) behave event s.listeners s
            (record { valid = v; all = refl })))
  ]

  handed-on_open : (protocol : String) (s : Stream T) → handed (on_open protocol s) ≡ handed s
  unfolding on_open clear_handshake
  handed-on_open protocol s = elim (Bool-cases (protocol == "fissionplane.v1")) [
    | inl agreed ↦ simp agreed (handed-flush (clear_handshake s))
    | inr refused ↦ simp refused (handed-fail _ (clear_handshake s))
  ]

  handed-timeout : (ms : ℕ) (s : Stream T) → handed (on_handshake_timeout ms s) ≡ handed s
  unfolding on_handshake_timeout
  handed-timeout ms s = elim (Bool-cases s.handshake) [
    | inl armed ↦ simp armed (handed-fail _ s)
    | inr cleared ↦ simp cleared
  ]

  handed-step :
      (i : Input T) (s : Stream T) → IsValid s → handed (step i s) ≡ handed s ++ accepted i s
  unfolding step on_message
  handed-step (message behave (ok (some event))) s v = handed-receive behave event s v
  handed-step (message behave (ok none)) s v = sym (append-nil (handed s))
  handed-step (message behave (raise e)) s v = handed-fail e s ∙ sym (append-nil (handed s))
  handed-step (opens protocol) s v = handed-on_open protocol s ∙ sym (append-nil (handed s))
  handed-step socket_closes s v = handed-finish s ∙ sym (append-nil (handed s))
  handed-step (socket_fails e) s v = handed-fail e s ∙ sym (append-nil (handed s))
  handed-step (handshake_expires ms) s v = handed-timeout ms s ∙ sym (append-nil (handed s))
  handed-step aborts s v = handed-close s ∙ sym (append-nil (handed s))
  handed-step (listens l) s v = handed-subscribe l s ∙ sym (append-nil (handed s))
  handed-step (leaves l) s v = unfold unsubscribe in sym (append-nil (handed s))
  handed-step iterates s v = handed-next s ∙ sym (append-nil (handed s))
  handed-step returns s v = handed-close s ∙ sym (append-nil (handed s))
  handed-step user_closes s v = handed-close s ∙ sym (append-nil (handed s))
  handed-step (user_sends frame) s v = handed-send frame s ∙ sym (append-nil (handed s))

  handed-run :
      (is : List (Input T)) (s : Stream T)
      → IsValid s
      → handed (run is s) ≡ handed s ++ accepted_all is s
  unfolding run
  handed-run [] s v = sym (append-nil (handed s))
  handed-run (i ∷ is) s v =
      handed-run is (step i s) (step-Survives IsValid-SurvivesAll i s v)
      ∙ ap (λ es. es ++ accepted_all is (step i s)) (handed-step i s v)
      ∙ append_assoc (handed s) (accepted i s) (accepted_all is (step i s))

  -- After any inputs to a new stream, the events that `next` calls were resolved with, followed by
  -- those that wait in the queue, are the accepted events in the order in which they came in: those
  -- of frames that arrived before the end and at which no listener threw. None is lost, and none
  -- is handed out twice.
  pub delivered-run :
      (ms : ℕ) (is : List (Input T))
      → let s = run is (new_stream {T = T} ms) in
        delivered s.log ++ s.queue ≡ accepted_all is (new_stream ms)
  unfolding new_stream
  delivered-run ms is = handed-run is (new_stream ms) (new_stream-IsValid ms)
