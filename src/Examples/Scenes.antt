-- ===== src/Examples/Scenes.antt =====
-- Runs of the layout (src/layout.rs).
use cocoa_way.Base.{ℕ, ◌≡◌, refl, none, some, List, [], ◌∷◌}
use cocoa_way.Layout as layout
use cocoa_way.Layout.{Toplevel}
use cocoa_way.Base.{pos, negsuc}
use cocoa_way.Layout.Focus.{
  IsLaidOut, Call, call_view, call_add, call_remove, call_move, run, step, run-new-IsLaidOut,
}

abbrev window : ℕ → Toplevel
window surface = record { surface = surface; configured = none }

abbrev calls : List Call
calls =
    call_add (window 1)
    ∷ call_add (window 2)
    ∷ call_view (pos 20000) (negsuc 3)
    ∷ call_move 2 (negsuc 40) (pos 7)
    ∷ call_add (window 3)
    ∷ call_remove 3
    ∷ []

run-new-IsLaidOut_example : IsLaidOut (run (layout.new (pos 1280) (pos 720)) calls)
run-new-IsLaidOut_example = run-new-IsLaidOut (pos 1280) (pos 720) calls

focused-calls : (run (layout.new (pos 1280) (pos 720)) calls).focused_idx ≡ some 1
unfolding run step layout.new layout.sanitize layout.sanitize_logical_size layout.add_tile
    layout.remove_tile layout.set_view_size layout.move_tile layout.relayout layout.place_all
    layout.place layout.calculate_tile_size layout.remove_first layout.remove_for layout.move_first
    layout.focus_after_remove layout.request_size layout.new_tile layout.calculate_new_tile_position
focused-calls = refl
