-- ===== src/Sdk/Streaming/State.antt =====
-- streaming.ts: the state of a StreamingEvents object and what it does to its surroundings.
use fissionplane.Prelude.{ℕ, Bool, String, Option, List}
use fissionplane.Sdk.Errors.{Thrown}

-- `sent` and `closed` act on the socket; the promise of the n-th `next` call is `n`.
pub data Action (T : Type 0) : Type 0 where
  sent : String → Action T
  closed : Action T
  notified : ℕ → T → Action T
  resolved : ℕ → T → Action T
  done : ℕ → Action T
  rejected : Thrown → ℕ → Action T

pub record Stream (T : Type 0) : Type 0 where
  pub listeners : List ℕ
  pub queue : List T
  pub pending : List ℕ
  pub outbound : List String
  pub handshake : Bool
  pub opened : Bool
  pub ended : Bool
  pub failure : Option Thrown
  pub calls : ℕ
  pub log : List (Action T)

-- What a listener does with the stream while it is called, and whether it throws.
pub data Reaction : Type 0 where
  closes pulls : Reaction
  sends : String → Reaction
  unsubscribes : ℕ → Reaction

pub record Behaviour : Type 0 where
  pub reactions : List Reaction
  pub throws : Option Thrown
