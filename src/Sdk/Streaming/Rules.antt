-- ===== src/Sdk/Streaming/Rules.antt =====
-- To show that a predicate survives every input of a stream it is enough to show that it survives
-- the operations below. A listener may run any of them in the middle of a delivery.
use fissionplane.Prelude.{
  ℕ, inl, inr, String, Option, none, some, List, [], ◌∷◌, Bool-cases, Option-cases, ◌==◌,
}
use fissionplane.Sdk.Errors.{Thrown}
use fissionplane.Sdk.Effect.{Outcome, ok, raise}
use fissionplane.Sdk.Streaming.{
  Stream, Reaction, Behaviour, closes, pulls, sends, unsubscribes, fail, close, send, next,
  unsubscribe, note, react, react_all, notify, deliver, receive, conclude, on_message, has,
  subscribe, finish, clear_handshake, flush, on_open, on_handshake_timeout, step, run, Input, opens,
  message, socket_closes, aborts, iterates, returns, user_closes, socket_fails, handshake_expires,
  listens, leaves, user_sends,
}

pub record Survives {ℓ} {T : Type 0} (P : Stream T → Type ℓ) : Type ℓ where
  pub fails : (e : Thrown) (s : Stream T) → P s → P (fail e s)
  pub closing : (s : Stream T) → P s → P (close s)
  pub sending : (frame : String) (s : Stream T) → P s → P (send frame s)
  pub pulling : (s : Stream T) → P s → P (next s)
  pub leaving : (l : ℕ) (s : Stream T) → P s → P (unsubscribe l s)
  pub noting : (l : ℕ) (event : T) (s : Stream T) → P s → P (note l event s)

module _ {ℓ} {T : Type 0} {P : Stream T → Type ℓ} (keep : Survives P) where
  react-Survives : (r : Reaction) (s : Stream T) → P s → P (react r s)
  unfolding react
  react-Survives closes s h = keep.closing s h
  react-Survives pulls s h = keep.pulling s h
  react-Survives (sends frame) s h = keep.sending frame s h
  react-Survives (unsubscribes l) s h = keep.leaving l s h

  react_all-Survives : (rs : List Reaction) (s : Stream T) → P s → P (react_all rs s)
  unfolding react_all
  react_all-Survives [] s h = h
  react_all-Survives (r ∷ rs) s h = react_all-Survives rs (react r s) (react-Survives r s h)

  -- Calling the listeners keeps what every operation keeps.
  pub notify-Survives :
      (behave : ℕ → Behaviour) (event : T) (ls : List ℕ) (s : Stream T)
      → P s
      → P (notify behave event ls s).0
  unfolding notify
  notify-Survives behave event [] s h = h
  notify-Survives behave event (l ∷ ls) s h =
      let s' = react_all (behave l).reactions (note l event s) in
      let h' = react_all-Survives (behave l).reactions (note l event s) (keep.noting l event s h) in
      elim (Bool-cases (has l s.listeners)) [
        | inl still ↦ elim (Option-cases (behave l).throws) [
          | inl quiet ↦ rw (still, quiet, notify) (notify-Survives behave event ls s' h')
          | inr (e, thrown) ↦ rw (still, thrown, notify) h'
        ]
        | inr gone ↦ rw (gone, notify) (notify-Survives behave event ls s h)
      ]

  module _ (handing : (event : T) (s : Stream T) → P s → P (deliver event s)) where
    conclude-Survives : (event : T) (r : Stream T × Option Thrown) → P r.0 → P (conclude event r)
    unfolding conclude
    conclude-Survives event (s, none) h = handing event s h
    conclude-Survives event (s, some e) h = keep.fails e s h

    -- An incoming frame keeps it too, if handing over the event does.
    pub on_message-Survives :
        (behave : ℕ → Behaviour) (parsed : Outcome (Option T)) (s : Stream T)
        → P s
        → P (on_message behave parsed s)
    unfolding on_message receive
    on_message-Survives behave (raise e) s h = keep.fails e s h
    on_message-Survives behave (ok none) s h = h
    on_message-Survives behave (ok (some event)) s h = elim (Bool-cases s.ended) [
      | inl over ↦ simp over h
      | inr live ↦ simp live (
          conclude-Survives event (notify behave event s.listeners s)
            (notify-Survives behave event s.listeners s h))
    ]

-- The operations that only the socket, the timer and the caller start.
pub record SurvivesAll {ℓ} {T : Type 0} (P : Stream T → Type ℓ) : Type ℓ where
  pub inner : Survives P
  pub open inner use *
  pub finishing : (s : Stream T) → P s → P (finish s)
  pub clearing : (s : Stream T) → P s → P (clear_handshake s)
  pub flushing : (s : Stream T) → P s → P (flush s)
  pub joining : (l : ℕ) (s : Stream T) → P s → P (subscribe l s)
  pub handing : (event : T) (s : Stream T) → P s → P (deliver event s)

module _ {ℓ} {T : Type 0} {P : Stream T → Type ℓ} (keep : SurvivesAll P) where
  on_open-Survives : (protocol : String) (s : Stream T) → P s → P (on_open protocol s)
  unfolding on_open
  on_open-Survives protocol s h = elim (Bool-cases (protocol == "fissionplane.v1")) [
    | inl agreed ↦ simp agreed (keep.flushing (clear_handshake s) (keep.clearing s h))
    | inr refused ↦ simp refused (keep.fails _ (clear_handshake s) (keep.clearing s h))
  ]

  on_handshake_timeout-Survives : (ms : ℕ) (s : Stream T) → P s → P (on_handshake_timeout ms s)
  unfolding on_handshake_timeout
  on_handshake_timeout-Survives ms s h = elim (Bool-cases s.handshake) [
    | inl armed ↦ simp armed (keep.fails _ s h)
    | inr cleared ↦ simp cleared h
  ]

  pub step-Survives : (i : Input T) (s : Stream T) → P s → P (step i s)
  unfolding step
  step-Survives (opens protocol) s h = on_open-Survives protocol s h
  step-Survives (message behave parsed) s h =
      on_message-Survives keep.inner keep.handing behave parsed s h
  step-Survives socket_closes s h = keep.finishing s h
  step-Survives (socket_fails e) s h = keep.fails e s h
  step-Survives (handshake_expires ms) s h = on_handshake_timeout-Survives ms s h
  step-Survives aborts s h = keep.closing s h
  step-Survives (listens l) s h = keep.joining l s h
  step-Survives (leaves l) s h = keep.leaving l s h
  step-Survives iterates s h = keep.pulling s h
  step-Survives returns s h = keep.closing s h
  step-Survives user_closes s h = keep.closing s h
  step-Survives (user_sends frame) s h = keep.sending frame s h

  pub run-Survives : (is : List (Input T)) (s : Stream T) → P s → P (run is s)
  unfolding run
  run-Survives [] s h = h
  run-Survives (i ∷ is) s h = run-Survives is (step i s) (step-Survives i s h)
