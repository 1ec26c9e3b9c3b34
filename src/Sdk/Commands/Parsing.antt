-- ===== src/Sdk/Commands/Parsing.antt =====
-- commands.ts, parseProcessStreamEvent: which frames become which events.
use fissionplane.Prelude.{
  ℕ, ◌≡◌, ◌≢◌, refl, ◌↔◌, inl, inr, true, String, Option, none, some, arith, eq_iff, ◌==◌,
  Bool-cases, Option-cases,
}
use fissionplane.Sdk.Value.{
  Value, Number, pos, negsuc, text, number, object, Fields, property, as_text,
}
use fissionplane.Sdk.Effect.{Outcome, ok, raise}
use fissionplane.Sdk.Frames.{
  FrameData, text_frame, binary_frame, object_of, parse_json_object, positive_integer, integer,
}
use fissionplane.Sdk.Commands.Protocol.{
  HasText, HasPositive, HasInteger, natural, negative, IsFrame, is_stdout, is_stderr, is_exit,
  is_gap,
}
use fissionplane.Sdk.Commands.{
  ProcessStreamEvent, stdout, stderr, exit, gap, process_event, typed, of_object,
  parse_process_stream_event, both, malformed,
}

as_text_sound : (o : Option Value) {s : String} → as_text o ≡ some s → o ≡ some (text s)
as_text_sound o e = ground arith

positive_integer_sound :
    (message : Fields) (key : String) {n : ℕ}
    → positive_integer (property key message) ≡ some n
    → HasPositive message key n
unfolding positive_integer
positive_integer_sound message key e = ground arith

positive_integer_complete :
    {message : Fields} {key : String} {n : ℕ}
    → HasPositive message key n
    → positive_integer (property key message) ≡ some n
unfolding positive_integer
positive_integer_complete h = ground (arith, h.held, h.positive)

integer_sound :
    (message : Fields) (key : String) (o : Option Value) {code : Number}
    → property key message ≡ o
    → integer o ≡ some code
    → HasInteger message key code
unfolding integer
integer_sound message key (some (number (pos n))) {code} held e =
    let same : pos n ≡ code = ground arith in rw (← same) (natural held)
integer_sound message key (some (number (negsuc n))) {code} held e =
    let same : negsuc n ≡ code = ground arith in rw (← same) (negative held)
integer_sound message key (some _) held e = cc
integer_sound message key none held e = cc

integer_complete :
    {message : Fields} {key : String} {code : Number}
    → HasInteger message key code
    → integer (property key message) ≡ some code
unfolding integer
integer_complete (natural held) = rw held
integer_complete (negative held) = rw held

both_sound :
    {A B T : Type 0} (kind : String) (make : A → B → T) (a : Option A) (b : Option B) {t : T}
    → both kind make a b ≡ ok (some t)
    → (x : A) × (y : B) × (a ≡ some x) × (b ≡ some y) × (make x y ≡ t)
unfolding both malformed
both_sound kind make (some a) (some b) e = (a, b, refl, refl, ground arith)
both_sound kind make (some a) none e = cc
both_sound kind make none b e = cc

named :
    (message : Fields) {kind : String} (name : String)
    → (kind == name) ≡ true
    → HasText message "type" kind
    → HasText message "type" name
named message {kind} name is h = rw ((eq_iff kind name).0 is) at h

process_event_sound :
    (message : Fields) (kind : String) (event : ProcessStreamEvent)
    → HasText message "type" kind
    → process_event message kind ≡ ok (some event)
    → IsFrame message event
unfolding process_event
process_event_sound message kind event h e = elim (Bool-cases (kind == "stdout")) [
  | inl is ↦
      let (n, s, sequence, content, same) = both_sound kind stdout _ _ (rw is at e) in
      rw (← same) (
        is_stdout (named message "stdout" is h) (positive_integer_sound message "sequence" sequence)
          (as_text_sound _ content))
  | inr no₁ ↦ elim (Bool-cases (kind == "stderr")) [
    | inl is ↦
        let (n, s, sequence, content, same) = both_sound kind stderr _ _ (rw (no₁, is) at e) in
        rw (← same) (
          is_stderr (named message "stderr" is h)
            (positive_integer_sound message "sequence" sequence) (as_text_sound _ content))
    | inr no₂ ↦ elim (Bool-cases (kind == "exit")) [
      | inl is ↦
          let (n, code, sequence, exited, same) =
            both_sound kind exit _ _ (rw (no₁, no₂, is) at e) in
          rw (← same) (
            is_exit (named message "exit" is h) (positive_integer_sound message "sequence" sequence)
              (integer_sound message "exit_code" _ refl exited))
      | inr no₃ ↦ elim (Bool-cases (kind == "gap")) [
        | inl is ↦
            let (n, m, first, last, same) = both_sound kind gap _ _ (rw (no₁, no₂, no₃, is) at e) in
            rw (← same) (
              is_gap (named message "gap" is h)
                (positive_integer_sound message "from_sequence" first)
                (positive_integer_sound message "to_sequence" last))
        | inr no₄ ↦
            let skipped : ◌≡◌ {A = Outcome (Option ProcessStreamEvent)} (ok none)
                (ok (some event)) =
              rw (no₁, no₂, no₃, no₄) at e in
            cc
      ]
    ]
  ]
]

of_object_complete :
    {message : Fields} {event : ProcessStreamEvent}
    → IsFrame message event
    → of_object (ok message) ≡ ok (some event)
unfolding of_object typed process_event both
of_object_complete {message} (is_stdout kind sequence content) =
    rw (kind, content, positive_integer_complete sequence)
of_object_complete (is_stderr kind sequence content) =
    rw (kind, content, positive_integer_complete sequence)
of_object_complete (is_exit kind sequence code) =
    rw (kind, positive_integer_complete sequence, integer_complete code)
of_object_complete (is_gap kind first last) =
    rw (kind, positive_integer_complete first, positive_integer_complete last)

object_of_sound :
    (parsed : Option Value) {message : Fields}
    → object_of parsed ≡ ok message
    → parsed ≡ some (object message)
unfolding object_of
object_of_sound parsed e = ground arith

of_object_sound :
    (r : Outcome Fields) (event : ProcessStreamEvent)
    → of_object r ≡ ok (some event)
    → (message : Fields) × (r ≡ ok message) × IsFrame message event
unfolding of_object typed
of_object_sound (raise x) event e = absurd (cc)
of_object_sound (ok message) event e = elim (Option-cases (as_text (property "type" message))) [
  | inl absent ↦ absurd (cc (absent))
  | inr (kind, is) ↦
      (message, refl, process_event_sound message kind event (as_text_sound _ is) (rw is at e))
]

parse_sound :
    (json_parse : String → Option Value) (frame : FrameData) (event : ProcessStreamEvent)
    → parse_process_stream_event json_parse frame ≡ ok (some event)
    → (s : String) × (message : Fields) × (frame ≡ text_frame s)
      × (json_parse s ≡ some (object message))
      × IsFrame message event
unfolding parse_process_stream_event parse_json_object of_object
parse_sound json_parse (text_frame s) event e =
    let (message, parsed, fits) = of_object_sound (object_of (json_parse s)) event e in
    (s, message, refl, object_of_sound (json_parse s) parsed, fits)
parse_sound json_parse binary_frame event e = absurd (cc)

-- A frame becomes an event exactly when it is a text that JSON.parse reads as an object whose fields
-- are, each of its type, those of that event: a positive sequence number and a text for output, a
-- positive sequence number and an integer for an exit, two positive numbers for a gap.
pub parse_process_stream_event_iff :
    (json_parse : String → Option Value) (frame : FrameData) (event : ProcessStreamEvent)
    → (parse_process_stream_event json_parse frame ≡ ok (some event)) ↔ (
        (s : String) × (message : Fields) × (frame ≡ text_frame s)
        × (json_parse s ≡ some (object message))
        × IsFrame message event)
unfolding parse_process_stream_event parse_json_object object_of
parse_process_stream_event_iff json_parse frame event = (
  parse_sound json_parse frame event,
  λ (s, message, is_text, parsed, fits). rw (is_text, parsed) (of_object_complete fits),
)

-- An object of any other type, whatever else it holds, is passed over: no event and no error.
pub unknown_type_is_skipped :
    (json_parse : String → Option Value) (s kind : String) (message : Fields)
    → json_parse s ≡ some (object message)
    → HasText message "type" kind
    → kind ≢ "stdout"
    → kind ≢ "stderr"
    → kind ≢ "exit"
    → kind ≢ "gap"
    → parse_process_stream_event json_parse (text_frame s) ≡ ok none
unfolding parse_process_stream_event parse_json_object object_of
unknown_type_is_skipped json_parse s kind message parsed typed_ no₁ no₂ no₃ no₄ =
    rw (parsed, typed_)
      (ground
        (arith, eq_iff kind "stdout", eq_iff kind "stderr", eq_iff kind "exit", eq_iff kind "gap"))
