-- ===== src/Sdk/Http/Fetch/Tests.antt =====
-- A request with a limit whose transport never settles, and its headers.
use fissionplane.Prelude.{
  ℕ, ◌≡◌, refl, not, ◌&&◌, true, String, Option, none, some, List, [], ◌∷◌, ◌++◌, is_some, ◌==◌,
  if◌then◌else◌,
}
use fissionplane.Sdk.Errors.{Thrown, foreign}
use fissionplane.Web.Entries.{Entries, entries, entries_IsWebHeaders}
use fissionplane.Sdk.Http.Fetch.{
  Limit, Event, responds, expires, aborts, race, depart, prepare, limit_for, timeout_name, fill,
  fly, settle, expire, abort,
}
use fissionplane.Sdk.Http.Fetch.Race.{winner, stop_reason, either, race-depart, race-expires}
use fissionplane.Sdk.Http.Fetch.Plans.{IsOutgoing, IsLimited, prepare-IsOutgoing}
use fissionplane.Sdk.Api.{user_agent}

abbrev limit : Limit
limit = record { ms = 50; printed = "50" }

abbrev gone : Thrown
gone = foreign "AbortError"

-- The caller gives up, the transport ignores it, the limit expires, and a late answer comes.
abbrev late : List (Event ℕ)
late = aborts (foreign "stop") ∷ expires ∷ responds 7 ∷ []

race-depart_example :
    let f = race "u" limit gone late (depart none) in
    (f.outcome ≡ winner "u" limit gone late)
    × (f.timer ≡ not (is_some (winner "u" limit gone late)))
    × (f.aborted ≡ either none (stop_reason "u" limit gone late))
    × (f.listening ≡ (
        not (is_some (winner "u" limit gone late))
        && not (is_some (either none (stop_reason "u" limit gone late)))))
race-depart_example = race-depart "u" limit gone none late

told_to_stop : (race "u" limit gone late (depart none)).aborted ≡ some (foreign "stop")
unfolding race depart fly settle expire abort
told_to_stop = refl

race-expires_example :
    is_some
      (race {R = ℕ} "u" limit gone
        ((aborts (foreign "stop") ∷ []) ++ expires ∷ (responds 7 ∷ []))
        (depart none)).outcome
    ≡ true
race-expires_example =
    race-expires "u" limit gone none (aborts (foreign "stop") ∷ []) (responds 7 ∷ [])

abbrev number : String → Option Limit
number s = if s == "50" then some limit else none

abbrev given : Entries
given = ("accept", "json") ∷ (timeout_name, "50") ∷ []

abbrev sent : Entries
sent = ("accept", "json") ∷ ("user-agent", user_agent) ∷ []

prepared : prepare entries number 60000 given ≡ some (sent, some limit)
unfolding prepare fill limit_for
prepared = refl

prepare-IsOutgoing_example :
    IsOutgoing entries entries_IsWebHeaders given sent
    × IsLimited number 60000 (some "50") (some limit)
prepare-IsOutgoing_example =
    prepare-IsOutgoing entries entries_IsWebHeaders number 60000 given sent (some limit) prepared
