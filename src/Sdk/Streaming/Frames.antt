-- ===== src/Sdk/Streaming/Frames.antt =====
-- The frames that a stream sends.
use fissionplane.Prelude.{
  ◌≡◌, refl, sym, ◌∙◌, ap, true, false, String, List, [], ◌∷◌, ◌++◌, append_assoc, append-nil,
  arith,
}
use fissionplane.Sdk.Streaming.{Stream, sent, clear_handshake, send, flush, on_open}
use fissionplane.Sdk.Streaming.Log.{frames, frames-append, frames-sent}

module _ {T : Type 0} where
  unfoldable pub send_all : List String → Stream T → Stream T
  send_all [] s = s
  send_all (f ∷ fs) s = send_all fs (send f s)

  send-waiting :
      (f : String) (s : Stream T)
      → s.ended ≡ false
      → s.opened ≡ false
      → send f s ≡ record s { outbound = s.outbound ++ f ∷ [] }
  unfolding send
  send-waiting f s live waiting = ground arith

  send-opened :
      (f : String) (s : Stream T)
      → s.ended ≡ false
      → s.opened ≡ true
      → send f s ≡ record s { log = s.log ++ sent f ∷ [] }
  unfolding send
  send-opened f s live opened = ground arith

  send_all-waiting :
      (fs : List String) (s : Stream T)
      → s.ended ≡ false
      → s.opened ≡ false
      → send_all fs s ≡ record s { outbound = s.outbound ++ fs }
  unfolding send_all
  send_all-waiting [] s live waiting =
      ap (λ o. record s { outbound = o }) (sym (append-nil s.outbound))
  send_all-waiting (f ∷ fs) s live waiting =
      ap (send_all fs) (send-waiting f s live waiting)
      ∙ send_all-waiting fs (record s { outbound = s.outbound ++ f ∷ [] }) live waiting
      ∙ ap (λ o. record s { outbound = o }) (append_assoc s.outbound (f ∷ []) fs)

  frames-send_all :
      (fs : List String) (s : Stream T)
      → s.ended ≡ false
      → s.opened ≡ true
      → frames (send_all fs s).log ≡ frames s.log ++ fs
  unfolding send_all
  frames-send_all [] s live opened = sym (append-nil (frames s.log))
  frames-send_all (f ∷ fs) s live opened =
      ap (λ t. frames (send_all fs t).log) (send-opened f s live opened)
      ∙ frames-send_all fs (record s { log = s.log ++ sent f ∷ [] }) live opened
      ∙ ap (λ g. g ++ fs) (frames-append s.log (sent f ∷ []))
      ∙ append_assoc (frames s.log) (f ∷ []) fs

  frames-on_open :
      (s : Stream T) → frames (on_open "fissionplane.v1" s).log ≡ frames s.log ++ s.outbound
  unfolding on_open clear_handshake flush
  frames-on_open s = simp (frames-append, frames-sent)

  -- Frames that a live stream is given before the handshake has completed are kept and sent in order
  -- when the socket opens with the expected protocol, ahead of the frames that are given afterwards.
  pub frames_in_order :
      (before after : List String) (s : Stream T)
      → s.ended ≡ false
      → s.opened ≡ false
      → frames (send_all after (on_open "fissionplane.v1" (send_all before s))).log
        ≡ (frames s.log ++ (s.outbound ++ before)) ++ after
  frames_in_order before after s live waiting =
      ap (λ t. frames (send_all after (on_open "fissionplane.v1" t)).log)
        (send_all-waiting before s live waiting)
      ∙ unfold on_open clear_handshake flush in
        frames-send_all after
          (on_open "fissionplane.v1" (record s { outbound = s.outbound ++ before })) live refl
        ∙ ap (λ g. g ++ after) (frames-on_open (record s { outbound = s.outbound ++ before }))
