-- ===== src/Layout/Focus.antt =====
-- Histories of a layout (src/layout.rs): which tile is focused, and what the clients have been told.
use cocoa_way.Base.{
  ℤ, pos, negsuc, ℕ, zero, suc, ◌+◌, ◌-◌, ◌≤◌, ◌≡◌, refl, sym, subst, ap, ◌∙◌, inl, inr, false,
  Option, none, some, List, [], ◌∷◌, if◌then◌else◌, length, length-append, option_eq, ◌==◌,
  Bool-cases, Option-cases, arith,
}
use cocoa_way.Layout.{
  Size, Position, Toplevel, Tile, Layout, sanitize, sanitize_logical_size, new, request_size,
  calculate_tile_size, place, place_all, relayout, set_view_size, add_tile, remove_first,
  focus_after_remove, remove_for, remove_tile, move_first, move_tile,
}

unfoldable pub last_index : ℕ → Option ℕ
last_index zero = none
last_index (suc n) = some n

-- From the i-th tile on: each has the size, has been configured with it, and is focused by its index.
pub Laid : Option ℕ → Size → ℕ → List Tile → Type 0
Laid focus size i [] = Unit
Laid focus size i (t ∷ ts) =
    ((t.size ≡ size)
      × (t.toplevel.configured ≡ some size)
      × (t.is_focused ≡ option_eq focus (some i)))
    × Laid focus size (suc i) ts

pub IsLogical : Size → Type 0
IsLogical s = (1 ≤ s.w) × (s.w ≤ 16384) × (1 ≤ s.h) × (s.h ≤ 16384)

pub IsLaidOut : Layout → Type 0
IsLaidOut l =
    (l.focused_idx ≡ last_index (length l.tiles))
    × IsLogical l.view_size
    × Laid l.focused_idx (calculate_tile_size l (length l.tiles)) 0 l.tiles

length-place :
    (l : Layout) (size : Size) (i x : ℕ) (ts : List Tile) → length (place l size i x ts) ≡ length ts
unfolding place
length-place l size i x [] = refl
length-place l size i x (t ∷ ts) = ap suc (length-place l size (suc i) (x + (size.w + l.gap)) ts)

place-Laid :
    (l : Layout) (size : Size) (i x : ℕ) (ts : List Tile)
    → Laid l.focused_idx size i (place l size i x ts)
unfolding place Laid request_size
place-Laid l size i x [] = tt
place-Laid l size i x (t ∷ ts) =
    ((refl, refl, refl), place-Laid l size (suc i) (x + (size.w + l.gap)) ts)

place_all-IsLaidOut :
    (l : Layout)
    → l.focused_idx ≡ last_index (length l.tiles)
    → IsLogical l.view_size
    → IsLaidOut (place_all l)
unfolding place_all IsLaidOut calculate_tile_size
place_all-IsLaidOut l e lv =
    let size = calculate_tile_size l (length l.tiles) in
    let same = length-place l size 0 l.padding l.tiles in
    (
      e ∙ ap last_index (sym same),
      lv,
      subst (λ n. Laid l.focused_idx (calculate_tile_size l n) 0 (place l size 0 l.padding l.tiles))
          (sym same) (place-Laid l size 0 l.padding l.tiles),
    )

is_zero-suc : (n : ℕ) → (suc n == 0) ≡ false
is_zero-suc n = ground arith

bare-IsLaidOut :
    (f : Option ℕ) (v : Size) (g p : ℕ)
    → f ≡ last_index 0
    → IsLogical v
    → IsLaidOut (record { tiles = []; focused_idx = f; view_size = v; gap = g; padding = p })
unfolding IsLaidOut Laid
bare-IsLaidOut f v g p e lv = (e, lv, tt)

-- Relayout settles every tile.
relaid-IsLaidOut :
    (ts : List Tile) (f : Option ℕ) (v : Size) (g p : ℕ)
    → f ≡ last_index (length ts)
    → IsLogical v
    → IsLaidOut
        (relayout (record { tiles = ts; focused_idx = f; view_size = v; gap = g; padding = p }))
unfolding relayout
relaid-IsLaidOut [] f v g p e lv = bare-IsLaidOut f v g p e lv
relaid-IsLaidOut (t ∷ ts) f v g p e lv =
    let l : Layout = record {
      tiles = t ∷ ts;
      focused_idx = f;
      view_size = v;
      gap = g;
      padding = p;
    } in
    subst (λ b. IsLaidOut (if b then l else place_all l)) (sym (is_zero-suc (length ts)))
      (place_all-IsLaidOut l e lv)

sanitize-bounds : (z : ℤ) → (1 ≤ sanitize z) × (sanitize z ≤ 16384)
unfolding sanitize
sanitize-bounds (negsuc n) = (omega arith, omega arith)
sanitize-bounds (pos n) = ground arith

sanitize_logical_size-IsLogical : (w h : ℤ) → IsLogical (sanitize_logical_size w h)
unfolding IsLogical sanitize_logical_size
sanitize_logical_size-IsLogical w h =
    let (a, b) = sanitize-bounds w in let (c, d) = sanitize-bounds h in (a, b, c, d)

set_view_size-IsLaidOut : (l : Layout) (w h : ℤ) → IsLaidOut l → IsLaidOut (set_view_size l w h)
unfolding set_view_size IsLaidOut
set_view_size-IsLaidOut l w h k =
    relaid-IsLaidOut l.tiles l.focused_idx (sanitize_logical_size w h) l.gap l.padding k.0
      (sanitize_logical_size-IsLogical w h)

some-last : (n m : ℕ) → n ≡ m + 1 → some (n - 1) ≡ last_index n
unfolding last_index
some-last zero m e = ground (arith, e)
some-last (suc n) m e = ap some (omega arith)

add_tile-IsLaidOut : (l : Layout) (t : Toplevel) → IsLaidOut l → IsLaidOut (add_tile l t)
unfolding add_tile IsLaidOut
add_tile-IsLaidOut l t k =
    relaid-IsLaidOut _ _ l.view_size l.gap l.padding
      (some-last _ (length l.tiles) (length-append l.tiles _)) k.1

length-remove_first :
    (surface : ℕ) (ts us : List Tile)
    → remove_first surface ts ≡ some us
    → length ts ≡ suc (length us)
unfolding remove_first
length-remove_first surface [] us e = cc
length-remove_first surface (t ∷ ts) us e = elim (Bool-cases (t.toplevel.surface == surface)) [
  | inl same ↦ let kept : ts ≡ us = grind arith in ap (λ xs. suc (length xs)) kept
  | inr other ↦ elim (Option-cases (remove_first surface ts)) [
    | inl nothing ↦ grind arith
    | inr (kept, found) ↦
        let whole : t ∷ kept ≡ us = grind arith in
        ap suc (length-remove_first surface ts kept found) ∙ ap (λ xs. suc (length xs)) whole
  ]
]

focus_after_remove-last : (n : ℕ) → focus_after_remove (last_index (suc n)) n ≡ last_index n
unfolding focus_after_remove last_index
focus_after_remove-last zero = refl
focus_after_remove-last (suc n) = ground arith

length-move_first :
    (surface : ℕ) (to : Position) (ts : List Tile) → length (move_first surface to ts) ≡ length ts
unfolding move_first
length-move_first surface to [] = refl
length-move_first surface to (t ∷ ts) =
    let later = length-move_first surface to ts in
    elim (Bool-cases (t.toplevel.surface == surface)) [
      | inl same ↦ rw (same, move_first)
      | inr other ↦ rw (other, move_first) (ap suc later)
    ]

move_first-Laid :
    (surface : ℕ) (to : Position) (f : Option ℕ) (size : Size) (i : ℕ) (ts : List Tile)
    → Laid f size i ts
    → Laid f size i (move_first surface to ts)
unfolding move_first Laid
move_first-Laid surface to f size i [] k = tt
move_first-Laid surface to f size i (t ∷ ts) k =
    let later = move_first-Laid surface to f size (suc i) ts k.1 in
    elim (Bool-cases (t.toplevel.surface == surface)) [
      | inl same ↦ rw (same, move_first) k
      | inr other ↦ rw (other, move_first) (k.0, later)
    ]

remove_for-IsLaidOut :
    (l : Layout) (r : Option (List Tile))
    → IsLaidOut l
    → ((us : List Tile) → r ≡ some us → length l.tiles ≡ suc (length us))
    → IsLaidOut (remove_for l r)
unfolding remove_for IsLaidOut
remove_for-IsLaidOut l none k shorter = k
remove_for-IsLaidOut l (some us) k shorter =
    let focus : l.focused_idx ≡ last_index (suc (length us)) =
      k.0 ∙ ap last_index (shorter us refl) in
    relaid-IsLaidOut us _ l.view_size l.gap l.padding
      (ap (λ f. focus_after_remove f (length us)) focus ∙ focus_after_remove-last (length us)) k.1

remove_tile-IsLaidOut : (l : Layout) (surface : ℕ) → IsLaidOut l → IsLaidOut (remove_tile l surface)
unfolding remove_tile
remove_tile-IsLaidOut l surface k = remove_for-IsLaidOut l _ k (length-remove_first surface l.tiles)

move_tile-IsLaidOut :
    (l : Layout) (surface : ℕ) (x y : ℤ) → IsLaidOut l → IsLaidOut (move_tile l surface x y)
unfolding move_tile IsLaidOut calculate_tile_size
move_tile-IsLaidOut l surface x y k =
    let to : Position = record { x = x; y = y } in
    let same = length-move_first surface to l.tiles in
    (
      k.0 ∙ ap last_index (sym same),
      k.1,
      subst (λ n. Laid l.focused_idx (calculate_tile_size l n) 0 (move_first surface to l.tiles))
          (sym same) (move_first-Laid surface to l.focused_idx _ 0 l.tiles k.2),
    )

pub data Call : Type 0 where
  call_view : ℤ → ℤ → Call
  call_add : Toplevel → Call
  call_remove : ℕ → Call
  call_move : ℕ → ℤ → ℤ → Call

unfoldable pub step : Layout → Call → Layout
step l (call_view w h) = set_view_size l w h
step l (call_add t) = add_tile l t
step l (call_remove surface) = remove_tile l surface
step l (call_move surface x y) = move_tile l surface x y

unfoldable pub run : Layout → List Call → Layout
run l [] = l
run l (c ∷ cs) = run (step l c) cs

step-IsLaidOut : (l : Layout) (c : Call) → IsLaidOut l → IsLaidOut (step l c)
unfolding step
step-IsLaidOut l (call_view w h) k = set_view_size-IsLaidOut l w h k
step-IsLaidOut l (call_add t) k = add_tile-IsLaidOut l t k
step-IsLaidOut l (call_remove surface) k = remove_tile-IsLaidOut l surface k
step-IsLaidOut l (call_move surface x y) k = move_tile-IsLaidOut l surface x y k

run-IsLaidOut : (l : Layout) (cs : List Call) → IsLaidOut l → IsLaidOut (run l cs)
unfolding run
run-IsLaidOut l [] k = k
run-IsLaidOut l (c ∷ cs) k = run-IsLaidOut (step l c) cs (step-IsLaidOut l c k)

-- From a new layout of any size, after any tiles added, removed and moved and any sizes set: the last
-- tile is the one in focus, the output is between 1 and 16384 points wide and high, and every tile has
-- the size of its share of the row and was configured with that size, and is marked as focused exactly
-- by its index.
pub run-new-IsLaidOut : (w h : ℤ) (cs : List Call) → IsLaidOut (run (new w h) cs)
unfolding new last_index
run-new-IsLaidOut w h cs =
    run-IsLaidOut _ cs (bare-IsLaidOut none _ 0 0 refl (sanitize_logical_size-IsLogical w h))
