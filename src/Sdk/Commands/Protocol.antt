-- ===== src/Sdk/Commands/Protocol.antt =====
-- commands.ts: the frames of the process stream, described field by field.
use fissionplane.Prelude.{ℕ, ◌<◌, ◌≡◌, String, some}
use fissionplane.Sdk.Value.{Number, pos, negsuc, text, number, Fields, property}
use fissionplane.Sdk.Commands.{ProcessStreamEvent, stdout, stderr, exit, gap}

-- A field that holds a text, a positive integer, an integer.
abbrev pub HasText : Fields → String → String → Type 0
HasText message key s = property key message ≡ some (text s)

pub record HasPositive (message : Fields) (key : String) (n : ℕ) : Type 0 where
  pub held : property key message ≡ some (number (pos n))
  pub positive : 0 < n

pub data HasInteger (message : Fields) (key : String) : Number → Type 0 where
  natural : {n : ℕ} → property key message ≡ some (number (pos n)) → HasInteger message key (pos n)
  negative :
      {n : ℕ} → property key message ≡ some (number (negsuc n)) → HasInteger message key (negsuc n)

-- The frames of the process stream, field by field.
pub data IsFrame (message : Fields) : ProcessStreamEvent → Type 0 where
  is_stdout :
      {n : ℕ} {s : String}
      → HasText message "type" "stdout"
      → HasPositive message "sequence" n
      → HasText message "data" s
      → IsFrame message (stdout n s)
  is_stderr :
      {n : ℕ} {s : String}
      → HasText message "type" "stderr"
      → HasPositive message "sequence" n
      → HasText message "data" s
      → IsFrame message (stderr n s)
  is_exit :
      {n : ℕ} {code : Number}
      → HasText message "type" "exit"
      → HasPositive message "sequence" n
      → HasInteger message "exit_code" code
      → IsFrame message (exit n code)
  is_gap :
      {n m : ℕ}
      → HasText message "type" "gap"
      → HasPositive message "from_sequence" n
      → HasPositive message "to_sequence" m
      → IsFrame message (gap n m)
