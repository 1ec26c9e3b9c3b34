-- ===== src/Assets/Shapes/Paths.antt =====
-- parsePathData reads back the polygons that path data is written for.
use fissionplane.Prelude.{true, some, List, [], ◌∷◌}
use fissionplane.Assets.Shapes.{
  Numbers, Polygon, Token, letter, closing, numeric, move, Pen, closed,
}

module _ {F : Type 0} where
  abbrev points : Polygon F → List (Token F) → List (Token F)
  points [] rest = rest
  points (p ∷ polygon) rest = numeric (some p.0) ∷ numeric (some p.1) ∷ points polygon rest

  -- "M x y x y … Z" for each polygon: the pairs after the first are lines.
  abbrev pub path_tokens : List (Polygon F) → List (Token F)
  path_tokens [] = []
  path_tokens (polygon ∷ polygons) =
      letter move true ∷ points polygon (closing ∷ path_tokens polygons)

module _ {F : Type 0} (numbers : Numbers F) where
  -- The pen after the first point of a polygon.
  abbrev started : F × F → Pen F → Pen F
  started p pen = record pen {
    polygons = closed numbers pen.polygons pen.current;
    current = some (p ∷ []);
    command = some (move, true);
    x = p.0;
    y = p.1;
  }
