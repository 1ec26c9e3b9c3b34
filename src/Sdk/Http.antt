-- ===== src/Sdk/Http.antt =====
-- src/sdks/typescript/src/http.ts: request options, the retry loop and its delays.
pub mod Retry
pub mod Bounds
pub mod Loop
pub mod Replay
pub mod Keeping
pub mod Fetch
mod Tests
use fissionplane.Prelude.{
  ℕ, ◌+◌, ◌*◌, ◌/◌, ◌^◌, min, Bool, true, false, String, Option, none, some, List, [], ◌∷◌, or_else,
  decimal, assign,
}
use fissionplane.Sdk.Errors.{Thrown, fission, type_error, range_error, protocol_error, foreign}
use fissionplane.Sdk.Effect.{ok, Eff, Signal}

abbrev pub default_request_timeout_ms : ℕ
default_request_timeout_ms = 60000

abbrev pub default_max_retries : ℕ
default_max_retries = 2

abbrev pub retry_base_delay_ms : ℕ
retry_base_delay_ms = 250

abbrev pub retry_delay_factor : ℕ
retry_delay_factor = 2

abbrev pub retry_max_delay_ms : ℕ
retry_max_delay_ms = 8000

abbrev pub timeout_header : String
timeout_header = "x-fissionplane-request-timeout-ms"

abbrev pub Headers : Type 0
Headers = List (String × String)

pub record RequestOptions : Type 0 where
  pub request_timeout_ms : Option ℕ
  pub signal : Option Signal
  pub headers : Option Headers

pub record CallInit : Type 0 where
  pub signal : Option Signal
  pub headers : Option Headers

pub record CallSpec : Type 0 where
  pub operation : String
  pub idempotent : Bool
  pub options : Option RequestOptions

-- A logger of which only `debug` is called.
pub record Logger (W : Type 0) : Type 0 where
  pub debug : Option (String → W → W)

-- `requestTimeoutMs` and `maxRetries` are natural numbers here; that the type `number` also has
-- negative numbers, fractions, Infinity and NaN is left out.
pub record RequestDefaults (W : Type 0) : Type 0 where
  pub request_timeout_ms : Option ℕ
  pub max_retries : Option ℕ
  pub logger : Option (Logger W)

pub record RequestPipeline (W : Type 0) : Type 0 where
  pub request_timeout_ms : ℕ
  pub max_retries : ℕ
  pub logger : Logger W

abbrev describe : Thrown → String
describe (fission e) = e.message
describe (type_error m) = m
describe (range_error m) = m
describe (protocol_error m) = m
describe (foreign m) = m

unfoldable pub should_retry : Thrown → Bool → Bool
should_retry error false = false
should_retry (fission e) true = e.retryable
should_retry (type_error m) true = true
should_retry _ true = false

-- The window of one attempt, in milliseconds.
unfoldable pub retry_window : ℕ → ℕ
retry_window attempt = min (retry_base_delay_ms * retry_delay_factor ^ attempt) retry_max_delay_ms

-- The delay in units of 2 ^ -53 milliseconds, from the numerator that Math.random() drew.
unfoldable pub retry_delay : ℕ → ℕ → ℕ
retry_delay drawn attempt = drawn * retry_window attempt

-- Math.round of such a delay, in milliseconds.
unfoldable pub round_delay : ℕ → ℕ
round_delay delay = (delay + 2 ^ 52) / 2 ^ 53

headers_of : Option RequestOptions → Headers
headers_of none = []
headers_of (some options) = elim options.request_timeout_ms [
  | none ↦ or_else options.headers []
  | some ms ↦ assign timeout_header (decimal ms) (or_else options.headers [])
]

unfoldable pub signal_of : Option RequestOptions → Option Signal
signal_of none = none
signal_of (some options) = options.signal

abbrev unless_empty : Headers → Option Headers
unless_empty [] = none
unless_empty (h ∷ hs) = some (h ∷ hs)

-- RequestPipeline.init.
unfoldable pub init : Option RequestOptions → CallInit
unfolding headers_of signal_of
init options = record { signal = signal_of options; headers = unless_empty (headers_of options) }

module _ {W : Type 0} where
  -- The constructor of RequestPipeline.
  unfoldable pub new_pipeline : Option (RequestDefaults W) → RequestPipeline W
  new_pipeline none = record {
    request_timeout_ms = default_request_timeout_ms;
    max_retries = default_max_retries;
    logger = record { debug = none };
  }
  new_pipeline (some d) = record {
    request_timeout_ms = or_else d.request_timeout_ms default_request_timeout_ms;
    max_retries = or_else d.max_retries default_max_retries;
    logger = or_else d.logger (record { debug = none });
  }

  -- `logger.debug?.(message)`.
  unfoldable pub debug : Logger W → String → Eff W (Unit {0})
  debug logger message w = elim logger.debug [
    | none ↦ (ok tt, w)
    | some write ↦ (ok tt, write message w)
  ]
