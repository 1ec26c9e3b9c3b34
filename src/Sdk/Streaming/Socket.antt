-- ===== src/Sdk/Streaming/Socket.antt =====
-- How often a stream closes its socket.
use fissionplane.Prelude.{ℕ, map, ◌≤◌, ◌≡◌, false, String, List, [], ◌∷◌, ◌++◌, arith}
use fissionplane.Sdk.Errors.{Thrown}
use fissionplane.Sdk.Streaming.{
  Stream, Input, Action, sent, closed, done, rejected, new_stream, clear_handshake, finish, fail,
  close, send, next, subscribe, unsubscribe, note, deliver, flush, run,
}
use fissionplane.Sdk.Streaming.Log.{
  closings, closings-append, closings-done, closings-rejected, closings-sent,
}
use fissionplane.Sdk.Streaming.Rules.{Survives, SurvivesAll, run-Survives}

module _ {T : Type 0} where
  -- The socket has been closed at most once, and not at all while the stream lives.
  record ClosesOnce (s : Stream T) : Type 0 where
    once : closings s.log ≤ 1
    live : s.ended ≡ false → closings s.log ≡ 0

  ClosesOnce-fail : (e : Thrown) (s : Stream T) → ClosesOnce s → ClosesOnce (fail e s)
  unfolding fail
  ClosesOnce-fail e s h = ground (
    arith,
    closings-rejected T e s.pending,
    closings-append s.log (map (rejected e) s.pending ++ closed ∷ []),
    closings-append (map {B = Action T} (rejected e) s.pending) (closed ∷ []),
  )

  ClosesOnce-finish : (s : Stream T) → ClosesOnce s → ClosesOnce (finish s)
  unfolding finish
  ClosesOnce-finish s h =
      ground (arith, closings-done T s.pending, closings-append s.log (map done s.pending))

  ClosesOnce-close : (s : Stream T) → ClosesOnce s → ClosesOnce (close s)
  unfolding close
  ClosesOnce-close s h = ground (
    arith,
    closings-done T s.pending,
    closings-append s.log (map done s.pending),
    closings-append (s.log ++ map done s.pending) (closed ∷ []),
  )

  ClosesOnce-send : (f : String) (s : Stream T) → ClosesOnce s → ClosesOnce (send f s)
  unfolding send
  ClosesOnce-send f s h = ground (arith, closings-append s.log (sent f ∷ []))

  ClosesOnce-next : (s : Stream T) → ClosesOnce s → ClosesOnce (next s)
  unfolding next
  ClosesOnce-next s h = grind (arith, closings-append)

  ClosesOnce-deliver : (e : T) (s : Stream T) → ClosesOnce s → ClosesOnce (deliver e s)
  unfolding deliver
  ClosesOnce-deliver e s h = grind (arith, closings-append)

  ClosesOnce-note : (l : ℕ) (e : T) (s : Stream T) → ClosesOnce s → ClosesOnce (note l e s)
  unfolding note
  ClosesOnce-note l e s h = grind (arith, closings-append)

  ClosesOnce-flush : (s : Stream T) → ClosesOnce s → ClosesOnce (flush s)
  unfolding flush
  ClosesOnce-flush s h =
      ground (arith, closings-sent T s.outbound, closings-append s.log (map sent s.outbound))

  ClosesOnce-subscribe : (l : ℕ) (s : Stream T) → ClosesOnce s → ClosesOnce (subscribe l s)
  unfolding subscribe
  ClosesOnce-subscribe l s h = ground arith

  ClosesOnce-Survives : Survives {T = T} ClosesOnce
  unfolding unsubscribe
  ClosesOnce-Survives = record {
    fails = ClosesOnce-fail;
    closing = ClosesOnce-close;
    sending = ClosesOnce-send;
    pulling = ClosesOnce-next;
    leaving = λ l s h. record { once = h.once; live = h.live };
    noting = ClosesOnce-note;
  }

  ClosesOnce-SurvivesAll : SurvivesAll {T = T} ClosesOnce
  unfolding clear_handshake
  ClosesOnce-SurvivesAll = record {
    inner = ClosesOnce-Survives;
    finishing = ClosesOnce-finish;
    clearing = λ s h. record { once = h.once; live = h.live };
    flushing = ClosesOnce-flush;
    joining = ClosesOnce-subscribe;
    handing = ClosesOnce-deliver;
  }

  new_stream-ClosesOnce : (ms : ℕ) → ClosesOnce (new_stream {T = T} ms)
  unfolding new_stream
  new_stream-ClosesOnce ms = omega arith

  -- After any inputs to a new stream its socket has been closed at most once, and not at all if the
  -- stream has not ended.
  pub closings-run :
      (ms : ℕ) (is : List (Input T))
      → let s = run is (new_stream {T = T} ms) in
        (closings s.log ≤ 1) × (s.ended ≡ false → closings s.log ≡ 0)
  closings-run ms is =
      let h = run-Survives ClosesOnce-SurvivesAll is (new_stream ms) (new_stream-ClosesOnce ms) in
      (h.once, h.live)
