-- ===== src/Sdk/Streaming/Promises.antt =====
-- The promises that `next` returned: each is settled once, in the order of the calls.
use fissionplane.Prelude.{
  ℕ, zero, suc, ◌≡◌, refl, sym, ◌∙◌, ap, inl, inr, true, String, List, [], ◌∷◌, ◌++◌, append_assoc,
  append-nil, arith, Bool-cases, Option-cases, List-cases,
}
use fissionplane.Sdk.Errors.{Thrown}
use fissionplane.Sdk.Streaming.{
  Stream, Input, new_stream, clear_handshake, finish, fail, close, send, next, subscribe,
  unsubscribe, note, deliver, flush, run,
}
use fissionplane.Sdk.Streaming.Log.{
  settled, settled-append, settled-done, settled-rejected, settled-sent,
}
use fissionplane.Sdk.Streaming.Rules.{Survives, SurvivesAll, run-Survives}
use fissionplane.Sdk.Streaming.Invariant.{IsValid, IsValid-SurvivesAll, new_stream-IsValid}

-- The numbers below n, in order.
abbrev pub upto : ℕ → List ℕ
upto zero = []
upto (suc n) = upto n ++ n ∷ []

ruleset settling =
    (settled-append, settled-done, settled-rejected, settled-sent, append-nil, append_assoc)

module _ {T : Type 0} where
  -- Every promise that was handed out, the settled ones first.
  abbrev pub promises : Stream T → List ℕ
  promises s = settled s.log ++ s.pending

  pub record Accounts (s : Stream T) : Type 0 where
    pub valid : IsValid s
    pub all : promises s ≡ upto s.calls

  promises-fail :
      (e : Thrown) (s : Stream T) → Accounts s → promises (fail e s) ≡ upto (fail e s).calls
  unfolding fail
  promises-fail e s h = elim (Bool-cases s.ended) [
    | inl over ↦ simp over h.all
    | inr live ↦ simp (live, settling) h.all
  ]

  promises-finish : (s : Stream T) → Accounts s → promises (finish s) ≡ upto (finish s).calls
  unfolding finish
  promises-finish s h = elim (Bool-cases s.ended) [
    | inl over ↦ simp over h.all
    | inr live ↦ simp (live, settling) h.all
  ]

  promises-close : (s : Stream T) → Accounts s → promises (close s) ≡ upto (close s).calls
  unfolding close
  promises-close s h = elim (Bool-cases s.ended) [
    | inl over ↦ simp over h.all
    | inr live ↦ simp (live, settling) h.all
  ]

  promises-send :
      (frame : String) (s : Stream T)
      → Accounts s
      → promises (send frame s) ≡ upto (send frame s).calls
  unfolding send
  promises-send frame s h = elim (Bool-cases s.ended) [
    | inl over ↦ simp over h.all
    | inr live ↦ elim (Bool-cases s.opened) [
      | inl open_ ↦ simp (live, open_, settling) h.all
      | inr closed ↦ simp (live, closed) h.all
    ]
  ]

  grown :
      (s : Stream T)
      → Accounts s
      → s.pending ≡ []
      → settled s.log ++ s.calls ∷ [] ≡ upto s.calls ++ s.calls ∷ []
  grown s h nobody = ap (λ ps. ps ++ s.calls ∷ []) (simp (nobody, append-nil) at h.all)

  promises-next : (s : Stream T) → Accounts s → promises (next s) ≡ upto (next s).calls
  unfolding next
  promises-next s h = elim (List-cases s.queue) [
    | inr (event, rest, first) ↦
        let nobody : s.pending ≡ [] = ground (arith, h.valid) in
        simp (first, nobody, settling) (grown s h nobody)
    | inl empty ↦ elim (Option-cases s.failure) [
      | inr (e, failed) ↦
          let nobody : s.pending ≡ [] = ground (arith, h.valid) in
          simp (empty, failed, nobody, settling) (grown s h nobody)
      | inl sound ↦ elim (Bool-cases s.ended) [
        | inl over ↦
            let nobody : s.pending ≡ [] = ground (arith, h.valid) in
            simp (empty, sound, over, nobody, settling) (grown s h nobody)
        | inr live ↦
            simp (empty, sound, live)
              (sym (append_assoc (settled s.log) s.pending (s.calls ∷ []))
                ∙ ap (λ ps. ps ++ s.calls ∷ []) h.all)
      ]
    ]
  ]

  promises-deliver :
      (event : T) (s : Stream T)
      → Accounts s
      → promises (deliver event s) ≡ upto (deliver event s).calls
  unfolding deliver
  promises-deliver event s h = elim (List-cases s.pending) [
    | inl nobody ↦ simp nobody (simp nobody at h.all)
    | inr (p, rest, first) ↦ simp (first, settling) (simp first at h.all)
  ]

  promises-note :
      (l : ℕ) (event : T) (s : Stream T)
      → Accounts s
      → promises (note l event s) ≡ upto (note l event s).calls
  unfolding note
  promises-note l event s h = simp settling h.all

  promises-flush : (s : Stream T) → Accounts s → promises (flush s) ≡ upto (flush s).calls
  unfolding flush
  promises-flush s h = simp settling h.all

  promises-subscribe :
      (l : ℕ) (s : Stream T) → Accounts s → promises (subscribe l s) ≡ upto (subscribe l s).calls
  unfolding subscribe
  promises-subscribe l s h = ground (arith, h.all)

  Accounts-Survives : Survives {T = T} Accounts
  unfolding unsubscribe
  Accounts-Survives = record {
    fails = λ e s h. record {
      valid = IsValid-SurvivesAll.fails e s h.valid;
      all = promises-fail e s h;
    };
    closing =
        λ s h. record { valid = IsValid-SurvivesAll.closing s h.valid; all = promises-close s h };
    sending = λ f s h. record {
      valid = IsValid-SurvivesAll.sending f s h.valid;
      all = promises-send f s h;
    };
    pulling =
        λ s h. record { valid = IsValid-SurvivesAll.pulling s h.valid; all = promises-next s h };
    leaving = λ l s h. record { valid = IsValid-SurvivesAll.leaving l s h.valid; all = h.all };
    noting = λ l e s h. record {
      valid = IsValid-SurvivesAll.noting l e s h.valid;
      all = promises-note l e s h;
    };
  }

  Accounts-SurvivesAll : SurvivesAll {T = T} Accounts
  unfolding clear_handshake
  Accounts-SurvivesAll = record {
    inner = Accounts-Survives;
    finishing = λ s h. record {
      valid = IsValid-SurvivesAll.finishing s h.valid;
      all = promises-finish s h;
    };
    clearing = λ s h. record { valid = IsValid-SurvivesAll.clearing s h.valid; all = h.all };
    flushing =
        λ s h. record { valid = IsValid-SurvivesAll.flushing s h.valid; all = promises-flush s h };
    joining = λ l s h. record {
      valid = IsValid-SurvivesAll.joining l s h.valid;
      all = promises-subscribe l s h;
    };
    handing = λ e s h. record {
      valid = IsValid-SurvivesAll.handing e s h.valid;
      all = promises-deliver e s h;
    };
  }

  new_stream-Accounts : (ms : ℕ) → Accounts (new_stream {T = T} ms)
  unfolding new_stream
  new_stream-Accounts ms = record { valid = new_stream-IsValid ms; all = refl }

  run-Accounts : (ms : ℕ) (is : List (Input T)) → Accounts (run is (new_stream ms))
  run-Accounts ms is = run-Survives Accounts-SurvivesAll is (new_stream ms) (new_stream-Accounts ms)

  -- After any inputs to a new stream: the promises that were settled, followed by those that wait,
  -- are the promises of the `next` calls in the order of the calls. So none is settled twice, none
  -- out of turn, and once the stream has ended all of them are settled.
  pub promises-run :
      (ms : ℕ) (is : List (Input T))
      → let s = run is (new_stream {T = T} ms) in
        (promises s ≡ upto s.calls) × (s.ended ≡ true → settled s.log ≡ upto s.calls)
  promises-run ms is =
      let h = run-Accounts ms is in
      (h.all, λ over. simp ((h.valid.settled over).1, append-nil) at h.all)
