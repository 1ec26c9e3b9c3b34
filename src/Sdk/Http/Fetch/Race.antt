-- ===== src/Sdk/Http/Fetch/Race.antt =====
-- createHttpFetch: how the race ends, for every order of events.
use fissionplane.Prelude.{
  ◌≡◌, refl, sym, ap, ◌∙◌, ◌++◌, true, false, String, Option, none, some, inl, inr, Option-cases,
  List, [], ◌∷◌, is_some, not, ◌&&◌,
}
use fissionplane.Sdk.Errors.{Thrown}
use fissionplane.Sdk.Effect.{Outcome, ok, raise}
use fissionplane.Sdk.Http.Fetch.{
  Limit, Flight, Event, responds, breaks, expires, aborts, timeout_error, first_reason, depart,
  settle, expire, abort, fly, race,
}

abbrev pub either : Option Thrown → Option Thrown → Option Thrown
either (some a) b = some a
either none b = b

kept : (o : Option Thrown) → o ≡ either o none
kept none = refl
kept (some x) = refl

first : (o : Option Thrown) (x : Thrown) → first_reason o x ≡ either o (some x)
first none x = refl
first (some y) x = refl

module _ {R : Type 0} (url : String) (limit : Limit) (gone : Thrown) where
  -- The first event that settles a promise of the race, as its outcome.
  abbrev pub winner : List (Event R) → Option (Outcome R)
  winner [] = none
  winner (responds r ∷ es) = some (ok r)
  winner (breaks e ∷ es) = some (raise e)
  winner (expires ∷ es) = some (raise (timeout_error url limit))
  winner (aborts reason ∷ es) = winner es

  -- The reason with which the transport is told to stop: the first abort or expiry before the end.
  abbrev pub stop_reason : List (Event R) → Option Thrown
  stop_reason [] = none
  stop_reason (responds r ∷ es) = none
  stop_reason (breaks e ∷ es) = none
  stop_reason (expires ∷ es) = some gone
  stop_reason (aborts reason ∷ es) = some reason

  settled_stays :
      (es : List (Event R)) (f : Flight R) (result : Outcome R)
      → f.outcome ≡ some result
      → f.timer ≡ false
      → f.listening ≡ false
      → race url limit gone es f ≡ f
  unfolding race fly settle expire abort
  settled_stays [] f result done off deaf = refl
  settled_stays (responds r ∷ es) f result done off deaf =
      simp (done) (settled_stays es f result done off deaf)
  settled_stays (breaks e ∷ es) f result done off deaf =
      simp (done) (settled_stays es f result done off deaf)
  settled_stays (expires ∷ es) f result done off deaf =
      simp (off) (settled_stays es f result done off deaf)
  settled_stays (aborts reason ∷ es) f result done off deaf =
      simp (deaf) (settled_stays es f result done off deaf)

  -- What a flight comes to from a state that is not settled.
  record Lands (es : List (Event R)) (f : Flight R) (end : Flight R) : Type 0 where
    decided : end.outcome ≡ winner es
    released : end.timer ≡ not (is_some (winner es))
    heard : end.listening ≡ (not (is_some (winner es)) && not (is_some end.aborted))
    told : end.aborted ≡ either f.aborted (stop_reason es)

  landed :
      (e : Event R) (es : List (Event R)) (f : Flight R) (result : Outcome R)
      → winner (e ∷ es) ≡ some result
      → (fly url limit gone e f).outcome ≡ some result
      → (fly url limit gone e f).timer ≡ false
      → (fly url limit gone e f).listening ≡ false
      → (fly url limit gone e f).aborted ≡ either f.aborted (stop_reason (e ∷ es))
      → Lands (e ∷ es) f (race url limit gone (e ∷ es) f)
  unfolding race
  landed e es f result won done off quiet told =
      rw (settled_stays es (fly url limit gone e f) result done off quiet) (record {
        decided = done ∙ sym won;
        released = simp (off, won);
        heard = simp (won) quiet;
        told = told;
      })

  race-Lands :
      (es : List (Event R)) (f : Flight R)
      → f.outcome ≡ none
      → f.timer ≡ true
      → f.listening ≡ not (is_some f.aborted)
      → Lands es f (race url limit gone es f)
  unfolding race fly settle expire abort
  race-Lands [] f open_ runs hears = record {
    decided = open_;
    released = runs;
    heard = hears;
    told = kept f.aborted;
  }
  race-Lands (responds r ∷ es) f open_ runs hears =
      landed (responds r) es f (ok r) refl (simp open_) (simp open_) (simp open_)
        (simp open_ (kept f.aborted))
  race-Lands (breaks x ∷ es) f open_ runs hears =
      landed (breaks x) es f (raise x) refl (simp open_) (simp open_) (simp open_)
        (simp open_ (kept f.aborted))
  race-Lands (expires ∷ es) f open_ runs hears =
      landed expires es f (raise (timeout_error url limit)) refl (simp (runs, open_))
        (simp (runs, open_)) (simp (runs, open_)) (simp (runs, open_) (first f.aborted gone))
  race-Lands (aborts reason ∷ es) f open_ runs hears = elim (Option-cases f.aborted) [
    | inr (old, stopped) ↦
        let deaf : f.listening ≡ false = rw stopped at hears in
        let rest = race-Lands es f open_ runs hears in
        let told : (race url limit gone es f).aborted ≡ some old =
          rest.told ∙ ap (λ o. either o (stop_reason es)) stopped in
        simp deaf (record {
          decided = rest.decided;
          released = rest.released;
          heard = rest.heard;
          told = simp stopped told;
        })
    | inl going ↦
        let on : f.listening ≡ true = rw going at hears in
        let rest =
          race-Lands es (record f { listening = false; aborted = some reason }) open_ runs refl in
        simp (on, going)
          (record {
            decided = rest.decided;
            released = rest.released;
            heard = rest.heard;
            told = simp going rest.told;
          })
  ]

  -- However the events of a request interleave, and whether or not the caller's signal had fired
  -- before: the outcome is that of the first event that is a response, a failure or the expiry of
  -- the limit; the timer runs exactly as long as there is no outcome; the transport is told to stop
  -- for the first reason there was up to then, the signal's, which counts first where it had fired
  -- before, or the expiry's; and the signal is listened to exactly as long as there is neither an
  -- outcome nor a reason to stop.
  pub race-depart :
      (already : Option Thrown) (es : List (Event R))
      → let f = race url limit gone es (depart already) in
        (f.outcome ≡ winner es)
        × (f.timer ≡ not (is_some (winner es)))
        × (f.aborted ≡ either already (stop_reason es))
        × (f.listening
            ≡ (not (is_some (winner es)) && not (is_some (either already (stop_reason es)))))
  unfolding depart
  race-depart already es =
      let end = race-Lands es (depart already) refl refl refl in
      (
        end.decided,
        end.released,
        end.told,
        end.heard ∙ ap (λ o. not (is_some (winner es)) && not (is_some o)) end.told,
      )

  winner-expires :
      (before after : List (Event R)) → is_some (winner (before ++ expires ∷ after)) ≡ true
  winner-expires [] after = refl
  winner-expires (responds r ∷ es) after = refl
  winner-expires (breaks e ∷ es) after = refl
  winner-expires (expires ∷ es) after = refl
  winner-expires (aborts reason ∷ es) after = winner-expires es after

  -- Once its limit has expired a request has an outcome, also if the transport never settles.
  pub race-expires :
      (already : Option Thrown) (before after : List (Event R))
      → is_some (race url limit gone (before ++ expires ∷ after) (depart already)).outcome ≡ true
  race-expires already before after =
      rw (race-depart already (before ++ expires ∷ after)).0 (winner-expires before after)
