-- ===== src/Assets/Shapes.antt =====
-- scripts/lib/shapes.mjs: reading path data, placing shapes, and the unit of their grid. Numbers are a
-- parameter; the tokens are what the regular expression PATH_TOKEN finds.
pub mod Grid
pub mod Paths
mod Tests
use fissionplane.Prelude.{
  ℕ, zero, suc, ◌+◌, ◌%◌, Bool, true, false, String, Option, some, none, List, [], ◌∷◌, ◌++◌, map,
  length, if◌then◌else◌,
}
use fissionplane.Web.Headers.{◌>>=◌}

-- `absolute` is `Math.abs` of a number that passes `Number.isInteger`.
pub record Numbers (F : Type 0) : Type 0 where
  pub nil : F
  pub plus : F → F → F
  pub minus : F → F → F
  pub times : F → F → F
  pub twice : F → F
  pub absolute : F → Option ℕ

abbrev pub Polygon : Type 0 → Type 0
Polygon F = List (F × F)

pub record SvgShape (F : Type 0) : Type 0 where
  pub fill : String
  pub polygons : List (Polygon F)

pub record Svg (F : Type 0) : Type 0 where
  pub width : F
  pub height : F
  pub shapes : List (SvgShape F)

pub record Placement (F : Type 0) : Type 0 where
  pub x : F
  pub y : F
  pub scale : F

pub data Verb : Type 0 where
  move line horizontal vertical : Verb

-- A letter, whose capital is absolute, or the text of a number, none where that is not finite.
pub data Token (F : Type 0) : Type 0 where
  letter : Verb → Bool → Token F
  closing : Token F
  numeric : Option F → Token F

-- `spent` is no end of the source: the fuel ran out.
pub data Parse (A : Type 0) : Type 0 where
  parsed : A → Parse A
  refused : Parse A
  spent : Parse A

-- The variables of parsePathData; `command` is none before the first letter and after a closing one.
pub record Pen (F : Type 0) : Type 0 where
  pub polygons : List (Polygon F)
  pub current : Option (Polygon F)
  pub command : Option (Verb × Bool)
  pub x : F
  pub y : F

-- The loop of Euclid, on fuel.
unfoldable pub gcd_within : (fuel a b : ℕ) → ℕ
gcd_within zero a b = a
gcd_within (suc fuel) a zero = a
gcd_within (suc fuel) a (suc b) = gcd_within fuel (suc b) (a % suc b)

-- The second number falls at each turn.
unfoldable pub gcd : ℕ → ℕ → ℕ
unfolding gcd_within
gcd a b = gcd_within (suc b) a b

-- A loop that a `return` may leave.
unfoldable pub each : {A : Type 0} → (ℕ → A → Option ℕ) → ℕ → List A → Option ℕ
each step unit [] = some unit
each step unit (a ∷ rest) = do unit' ← step unit a; each step unit' rest

module _ {F : Type 0} (numbers : Numbers F) where
  unfoldable pub unit_with : ℕ → F → Option ℕ
  unit_with unit value = do n ← numbers.absolute value; some (gcd unit n)

  unfoldable pub unit_of_point : ℕ → F × F → Option ℕ
  unfolding unit_with
  unit_of_point unit (x, y) = do unit' ← unit_with unit x; unit_with unit' y

  unfoldable pub unit_of_shape : ℕ → SvgShape F → Option ℕ
  unfolding unit_of_point each
  unit_of_shape unit shape = each (each unit_of_point) unit shape.polygons

  -- `unit || 1`.
  abbrev pub or_one : Option ℕ → ℕ
  or_one none = 1
  or_one (some zero) = 1
  or_one (some (suc n)) = suc n

  unfoldable pub grid_unit_of : List (SvgShape F) → ℕ
  unfolding unit_of_shape each
  grid_unit_of shapes = or_one (each unit_of_shape 0 shapes)

  unfoldable pub place_point : Placement F → F × F → F × F
  place_point p (x, y) =
      (numbers.plus p.x (numbers.times x p.scale), numbers.plus p.y (numbers.times y p.scale))

  unfoldable pub place_svg : Svg F → Placement F → Svg F
  unfolding place_point
  place_svg svg p = record {
    width = numbers.times svg.width p.scale;
    height = numbers.times svg.height p.scale;
    shapes =
        map
          (λ shape. record {
            fill = shape.fill;
            polygons = map (map (place_point p)) shape.polygons;
          })
          svg.shapes;
  }

  -- `close` of parsePathData.
  abbrev pub closed : List (Polygon F) → Option (Polygon F) → List (Polygon F)
  closed polygons (some (p ∷ q ∷ points)) = polygons ++ ((p ∷ q ∷ points) ∷ [])
  closed polygons (some (p ∷ [])) = polygons
  closed polygons (some []) = polygons
  closed polygons none = polygons

  unfoldable pub close : Pen F → Pen F
  close pen = record pen { polygons = closed pen.polygons pen.current; current = none }

  -- A number and what is left, none where `number` throws.
  unfoldable pub number : List (Token F) → Option (F × List (Token F))
  number (numeric (some value) ∷ tokens) = some (value, tokens)
  number (numeric none ∷ tokens) = none
  number (letter verb is_absolute ∷ tokens) = none
  number (closing ∷ tokens) = none
  number [] = none

  abbrev pub step_to : Bool → F → F → F
  step_to true from delta = delta
  step_to false from delta = numbers.plus from delta

  -- `current?.push`.
  abbrev pub pushed : F × F → Option (Polygon F) → Option (Polygon F)
  pushed point none = none
  pushed point (some points) = some (points ++ (point ∷ []))

  unfoldable pub reach : F → F → Pen F → Pen F
  reach x y pen = record pen { x = x; y = y; current = pushed (x, y) pen.current }

  -- The `switch` on a command.
  unfoldable pub draw : Verb → Bool → Pen F → List (Token F) → Option (Pen F × List (Token F))
  unfolding close number reach
  draw move is_absolute pen tokens = do
    dx ← number tokens
    dy ← number dx.1
    let x = step_to is_absolute pen.x dx.0
    let y = step_to is_absolute pen.y dy.0
    some (record (close pen) { x = x; y = y; current = some ((x, y) ∷ []) }, dy.1)
  draw line is_absolute pen tokens = do
    dx ← number tokens
    dy ← number dx.1
    some (reach (step_to is_absolute pen.x dx.0) (step_to is_absolute pen.y dy.0) pen, dy.1)
  draw horizontal is_absolute pen tokens = do
    dx ← number tokens
    some (reach (step_to is_absolute pen.x dx.0) pen.y pen, dx.1)
  draw vertical is_absolute pen tokens = do
    dy ← number tokens
    some (reach pen.x (step_to is_absolute pen.y dy.0) pen, dy.1)

  -- A command that is repeated: after a move, lines.
  abbrev pub repeated : Option (Verb × Bool) → Option (Verb × Bool)
  repeated none = none
  repeated (some (move, is_absolute)) = some (line, is_absolute)
  repeated (some (verb, is_absolute)) = some (verb, is_absolute)

  unfoldable pub drawn :
      Option (Verb × Bool) → Pen F → List (Token F) → Option (Pen F × List (Token F))
  unfolding draw
  drawn none pen tokens = none
  drawn (some (verb, is_absolute)) pen tokens =
      draw verb is_absolute (record pen { command = some (verb, is_absolute) }) tokens

  -- One turn of the loop, at a token.
  unfoldable pub turn : Pen F → Token F → List (Token F) → Option (Pen F × List (Token F))
  unfolding drawn close
  turn pen closing rest = some (record (close pen) { command = none }, rest)
  turn pen (letter verb is_absolute) rest = drawn (some (verb, is_absolute)) pen rest
  turn pen (numeric value) rest = drawn (repeated pen.command) pen (numeric value ∷ rest)

  unfoldable pub loop : ℕ → Pen F → List (Token F) → Parse (List (Polygon F))
  unfolding turn
  loop zero pen tokens = spent
  loop (suc fuel) pen [] = parsed (close pen).polygons
  loop (suc fuel) pen (token ∷ rest) = elim (turn pen token rest) [
    | none ↦ refused
    | some next ↦ loop fuel next.0 next.1
  ]

  -- A turn takes a token at least.
  unfoldable pub parse_path_data : List (Token F) → Parse (List (Polygon F))
  unfolding loop
  parse_path_data tokens =
      loop (suc (length tokens))
        (record { polygons = []; current = none; command = none; x = numbers.nil; y = numbers.nil })
        tokens

  unfoldable pub rectangle : (x y width height : F) → Polygon F
  rectangle x y width height =
      (x, y)
      ∷ (numbers.plus x width, y)
      ∷ (numbers.plus x width, numbers.plus y height)
      ∷ (x, numbers.plus y height)
      ∷ []

  -- The box is that of `rectangle`.
  unfoldable pub frame : (x y width height thickness : F) → List (Polygon F)
  unfolding rectangle
  frame x y width height thickness =
      let below = numbers.plus y thickness in
      let inner = numbers.minus height (numbers.twice thickness) in
      rectangle x y width thickness
      ∷ rectangle x (numbers.minus (numbers.plus y height) thickness) width thickness
      ∷ rectangle x below thickness inner
      ∷ rectangle (numbers.minus (numbers.plus x width) thickness) below thickness inner
      ∷ []
