-- ===== src/Sdk/Streaming/Log.antt =====
-- What the log of a stream says: the events handed to `next`, the promises settled, and the calls
-- made on the socket and on listeners.
use fissionplane.Prelude.{ℕ, suc, ◌+◌, ◌≡◌, refl, ap, String, List, [], ◌∷◌, ◌++◌, map, arith}
use fissionplane.Sdk.Errors.{Thrown}
use fissionplane.Sdk.Streaming.{Action, sent, closed, notified, resolved, done, rejected}

module _ {T : Type 0} where
  -- The events that `next` calls were resolved with, in order.
  abbrev pub delivered : List (Action T) → List T
  delivered [] = []
  delivered (resolved p event ∷ log) = event ∷ delivered log
  delivered (_ ∷ log) = delivered log

  -- The promises that were settled, in order.
  abbrev pub settled : List (Action T) → List ℕ
  settled [] = []
  settled (resolved p event ∷ log) = p ∷ settled log
  settled (done p ∷ log) = p ∷ settled log
  settled (rejected e p ∷ log) = p ∷ settled log
  settled (_ ∷ log) = settled log

  -- The frames that were sent, in order.
  abbrev pub frames : List (Action T) → List String
  frames [] = []
  frames (sent frame ∷ log) = frame ∷ frames log
  frames (_ ∷ log) = frames log

  -- How often the socket was closed.
  abbrev pub closings : List (Action T) → ℕ
  closings [] = 0
  closings (closed ∷ log) = suc (closings log)
  closings (_ ∷ log) = closings log

  -- How often a listener was called.
  abbrev pub notices : List (Action T) → ℕ
  notices [] = 0
  notices (notified l event ∷ log) = suc (notices log)
  notices (_ ∷ log) = notices log

  pub delivered-append :
      (xs ys : List (Action T)) → delivered (xs ++ ys) ≡ delivered xs ++ delivered ys
  delivered-append [] ys = refl
  delivered-append (resolved p event ∷ xs) ys = rw (delivered-append xs ys)
  delivered-append (_ ∷ xs) ys = delivered-append xs ys

  pub settled-append : (xs ys : List (Action T)) → settled (xs ++ ys) ≡ settled xs ++ settled ys
  settled-append [] ys = refl
  settled-append (resolved p event ∷ xs) ys = rw (settled-append xs ys)
  settled-append (done p ∷ xs) ys = rw (settled-append xs ys)
  settled-append (rejected e p ∷ xs) ys = rw (settled-append xs ys)
  settled-append (_ ∷ xs) ys = settled-append xs ys

  pub frames-append : (xs ys : List (Action T)) → frames (xs ++ ys) ≡ frames xs ++ frames ys
  frames-append [] ys = refl
  frames-append (sent frame ∷ xs) ys = rw (frames-append xs ys)
  frames-append (_ ∷ xs) ys = frames-append xs ys

  pub closings-append : (xs ys : List (Action T)) → closings (xs ++ ys) ≡ closings xs + closings ys
  closings-append [] ys = omega arith
  closings-append (closed ∷ xs) ys = omega (arith, closings-append xs ys)
  closings-append (_ ∷ xs) ys = closings-append xs ys

  pub notices-append : (xs ys : List (Action T)) → notices (xs ++ ys) ≡ notices xs + notices ys
  notices-append [] ys = omega arith
  notices-append (notified l event ∷ xs) ys = omega (arith, notices-append xs ys)
  notices-append (_ ∷ xs) ys = notices-append xs ys

-- (The event type is explicit where the statement shows it only in the log.)
module _ (T : Type 0) where
  -- Promises that end together deliver nothing, and are settled in their order.
  pub delivered-done : (ps : List ℕ) → delivered (map {B = Action T} done ps) ≡ []
  delivered-done [] = refl
  delivered-done (p ∷ ps) = delivered-done ps

  pub delivered-rejected :
      (e : Thrown) (ps : List ℕ) → delivered (map {B = Action T} (rejected e) ps) ≡ []
  delivered-rejected e [] = refl
  delivered-rejected e (p ∷ ps) = delivered-rejected e ps

  pub delivered-sent : (fs : List String) → delivered (map {B = Action T} sent fs) ≡ []
  delivered-sent [] = refl
  delivered-sent (f ∷ fs) = delivered-sent fs

  pub settled-done : (ps : List ℕ) → settled (map {B = Action T} done ps) ≡ ps
  settled-done [] = refl
  settled-done (p ∷ ps) = ap (◌∷◌ p) (settled-done ps)

  pub settled-rejected :
      (e : Thrown) (ps : List ℕ) → settled (map {B = Action T} (rejected e) ps) ≡ ps
  settled-rejected e [] = refl
  settled-rejected e (p ∷ ps) = ap (◌∷◌ p) (settled-rejected e ps)

  pub settled-sent : (fs : List String) → settled (map {B = Action T} sent fs) ≡ []
  settled-sent [] = refl
  settled-sent (f ∷ fs) = settled-sent fs

  pub frames-sent : (fs : List String) → frames (map {B = Action T} sent fs) ≡ fs
  frames-sent [] = refl
  frames-sent (f ∷ fs) = ap (◌∷◌ f) (frames-sent fs)

  pub closings-done : (ps : List ℕ) → closings (map {B = Action T} done ps) ≡ 0
  closings-done [] = refl
  closings-done (p ∷ ps) = closings-done ps

  pub closings-rejected :
      (e : Thrown) (ps : List ℕ) → closings (map {B = Action T} (rejected e) ps) ≡ 0
  closings-rejected e [] = refl
  closings-rejected e (p ∷ ps) = closings-rejected e ps

  pub closings-sent : (fs : List String) → closings (map {B = Action T} sent fs) ≡ 0
  closings-sent [] = refl
  closings-sent (f ∷ fs) = closings-sent fs
