-- ===== src/Layout.antt =====
-- The row of tiles of a logical output (src/layout.rs): Tile and Layout with their operations. A surface
-- is its number; a toplevel keeps the size of its last configure. The `i32` values of the source are
-- integers without bounds: a row would need 131,072 tiles of 16,384 points to pass them.
pub mod Focus
use cocoa_way.Base.{
  ℤ, pos, negsuc, ℕ, zero, suc, ◌+◌, ◌-◌, ◌*◌, ◌/◌, ◌≡◌, refl, max, Bool, true, false, Option, none,
  some, List, [], ◌∷◌, ◌++◌, if◌then◌else◌, length, option_eq, ltb, leb, ◌==◌,
}
use mathlib.Core.Option

pub record Size : Type 0 where
  pub w : ℕ
  pub h : ℕ

pub record Position : Type 0 where
  pub x : ℤ
  pub y : ℤ

pub record Toplevel : Type 0 where
  pub surface : ℕ
  pub configured : Option Size

pub record Tile : Type 0 where
  pub toplevel : Toplevel
  pub position : Position
  pub size : Size
  pub is_focused : Bool

pub record Layout : Type 0 where
  pub tiles : List Tile
  pub focused_idx : Option ℕ
  pub view_size : Size
  pub gap : ℕ
  pub padding : ℕ

abbrev pub max_logical_output_dimension : ℕ
max_logical_output_dimension = 16384

-- Rounding leaves a whole number as it is.
unfoldable pub sanitize : ℤ → ℕ
sanitize (pos n) =
    if ltb n 1
    then 1
    else if ltb max_logical_output_dimension n
    then max_logical_output_dimension
    else n
sanitize (negsuc n) = 1

unfoldable pub sanitize_logical_size : ℤ → ℤ → Size
sanitize_logical_size width height = record { w = sanitize width; h = sanitize height }

unfoldable pub new : ℤ → ℤ → Layout
new width height = record {
  tiles = [];
  focused_idx = none;
  view_size = sanitize_logical_size width height;
  gap = 0;
  padding = 0;
}

unfoldable pub new_tile : Toplevel → Position → Size → Tile
new_tile toplevel position size = record {
  toplevel = toplevel;
  position = position;
  size = size;
  is_focused = false;
}

unfoldable pub request_size : Tile → Tile
request_size t = record t { toplevel = record (t.toplevel) { configured = some t.size } }

-- A negative width or height in the source is below 100 just as 0 is.
unfoldable pub calculate_tile_size : Layout → ℕ → Size
calculate_tile_size l zero = l.view_size
calculate_tile_size l (suc count) = record {
  w = max ((l.view_size.w - l.padding * 2 - l.gap * count) / suc count) 100;
  h = max (l.view_size.h - l.padding * 2) 100;
}

unfoldable pub calculate_new_tile_position : Layout → Position
calculate_new_tile_position l = record { x = pos l.padding; y = pos l.padding }

-- The loop of relayout, from the i-th tile on, at x.
unfoldable pub place : Layout → Size → ℕ → ℕ → List Tile → List Tile
place l size i x [] = []
place l size i x (t ∷ ts) =
    request_size (record {
      toplevel = t.toplevel;
      position = record { x = pos x; y = pos l.padding };
      size = size;
      is_focused = option_eq l.focused_idx (some i);
    })
    ∷ place l size (suc i) (x + (size.w + l.gap)) ts

unfoldable pub place_all : Layout → Layout
place_all l = record l {
  tiles = place l (calculate_tile_size l (length l.tiles)) 0 l.padding l.tiles;
}

unfoldable pub relayout : Layout → Layout
relayout l = if length l.tiles == 0 then l else place_all l

unfoldable pub set_view_size : Layout → ℤ → ℤ → Layout
set_view_size l width height =
    relayout (record l { view_size = sanitize_logical_size width height })

unfoldable pub add_tile : Layout → Toplevel → Layout
add_tile l toplevel =
    let position = calculate_new_tile_position l in
    let size = calculate_tile_size l (length l.tiles + 1) in
    let tiles = l.tiles ++ (new_tile toplevel position size ∷ []) in
    relayout (record l { tiles = tiles; focused_idx = some (length tiles - 1) })

-- The tiles without the first one of a surface, when there is one.
unfoldable pub remove_first : ℕ → List Tile → Option (List Tile)
remove_first surface [] = none
remove_first surface (t ∷ ts) =
    let rest = remove_first surface ts in
    if t.toplevel.surface == surface then some ts else Option.map (λ kept. t ∷ kept) rest

unfoldable pub focus_after_remove : Option ℕ → ℕ → Option ℕ
focus_after_remove none count = none
focus_after_remove (some focused) count =
    if leb count focused then (if count == 0 then none else some (count - 1)) else some focused

unfoldable pub remove_for : Layout → Option (List Tile) → Layout
remove_for l none = l
remove_for l (some tiles) =
    relayout
      (record l { tiles = tiles; focused_idx = focus_after_remove l.focused_idx (length tiles) })

unfoldable pub remove_tile : Layout → ℕ → Layout
remove_tile l surface = remove_for l (remove_first surface l.tiles)

unfoldable pub move_first : ℕ → Position → List Tile → List Tile
move_first surface position [] = []
move_first surface position (t ∷ ts) =
    let rest = move_first surface position ts in
    if t.toplevel.surface == surface then record t { position = position } ∷ ts else t ∷ rest

unfoldable pub move_tile : Layout → ℕ → ℤ → ℤ → Layout
move_tile l surface x y = record l { tiles = move_first surface (record { x = x; y = y }) l.tiles }
