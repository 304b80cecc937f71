-- ===== src/Examples/Rendering.antt =====
-- The render budget, the frames and the texture versions at work (src/render_budget.rs,
-- src/texture_lifetime.rs).
use cocoa_way.Base.{
  ℕ, suc, ltb, ◌&&◌, ◌+◌, ◌≤◌, ◌<◌, ◌≡◌, refl, inl, inr, Bool, true, false, Option, none, some,
  List, [], ◌∷◌, nat_of, get_elem?, length, arith, ◌==◌, count,
}
use cocoa_way.Budget.{
  Limits, take_waiters, wake_waiters, with_client_limits, try_reserve_replacing, charge,
  under_pressure, credit_of, wait,
}
use cocoa_way.Budget.Steps
use cocoa_way.Budget.Ledger.{IsAccounted}
use cocoa_way.Budget.Accounts.{run-start-IsAccounted}
use cocoa_way.Budget.Marks.{Share}
use cocoa_way.Budget.Shares.{run-start-IsShared}
use cocoa_way.Budget.Wakes.{wake_waiters_lem}
use cocoa_way.FrameGate.{admit, defer_until_idle}
use cocoa_way.FrameGate.Word.{Gate, encode}
use cocoa_way.FrameGate.Redraw.{release_all, refused_redraw, defer_until_idle_drains}
use cocoa_way.Frames.Renderer
use cocoa_way.Frames.Holders.{IsTracked}
use cocoa_way.Frames.Readers.{run-start-IsTracked}
use cocoa_way.Textures.{Versions, ok, test_at, update_matching, retain_idle_spare}
use cocoa_way.Textures.Views.{views}
use cocoa_way.Textures.During.{
  position_from, any_from, current_from, compatible_from, update_target_during,
}
use cocoa_way.Textures.Meanwhile.{GoesTo, update_target_during-GoesTo}
use cocoa_way.Textures.Update.{Outcome, update_matching-Outcome}
use cocoa_way.Textures.Kept.{read_versions_kept}
use cocoa_way.Textures.Retained.{first_spare, kept}
use cocoa_way.Textures.Prune.{reading, idles, retain_idle_spare_lem}

-- Ten bytes and three allocations for all, four bytes and two allocations for each client.
abbrev small : Limits
small = record {
  max_bytes = 10;
  max_allocations = 3;
  max_client_bytes = 4;
  max_client_allocations = 2;
}

-- Client 0 takes an oversized reservation and is refused a second one; client 1 replaces its own.
abbrev steps : List Steps.Op
steps =
    Steps.reserve 5 0 none
    ∷ Steps.reserve 6 0 none
    ∷ Steps.reserve 3 1 none
    ∷ Steps.reserve 2 1 (some 1)
    ∷ Steps.drop 0
    ∷ Steps.notify
    ∷ []

run-start-IsAccounted_example : IsAccounted (Steps.run (Steps.start small) steps)
run-start-IsAccounted_example = run-start-IsAccounted small steps

run-start-IsShared_example :
    Share true
      (Steps.run (Steps.start small) steps).limits
      ((Steps.run (Steps.start small) steps).clients 1)
run-start-IsShared_example =
    run-start-IsShared true small steps 1
      (inl refl, (inl refl, (inl refl, (inr refl, (tt, (tt, tt))))))

-- Client 0 waits after its refusal, and a thread has taken it when client 1 is refused.
abbrev waiting : List Steps.Op
waiting = Steps.reserve 5 0 none ∷ Steps.reserve 6 0 none ∷ Steps.take ∷ Steps.defer 1 ∷ []

wake_waiters_lem_example :
    let b = Steps.run (Steps.start small) waiting in
    let k = (wake_waiters b).clients 1 in
    (nat_of k.waiting ≡ count 1 b.in_flight)
    × (k.notified ≡ (b.clients 1).notified + count 1 b.waiters)
    × (nat_of (b.clients 1).waiting ≡ count 1 b.waiters + count 1 b.in_flight)
unfolding Steps.run Steps.step Steps.start with_client_limits try_reserve_replacing charge
    under_pressure credit_of wait take_waiters
wake_waiters_lem_example = wake_waiters_lem small waiting 1 refl

-- A full gate, whose refused redraw comes back.
abbrev full_gate : Gate
full_gate = record { count = 3; drain = false; redraw = false }

refused_redraw_example :
    let state = (admit (encode full_gate) true).0 in
    (0 < 3)
    × (release_all 3 state ≡ (encode (record { count = 0; drain = false; redraw = false }), 1))
unfolding admit
refused_redraw_example = refused_redraw full_gate true (omega arith) refl

defer_until_idle_drains_example :
    let state = defer_until_idle (encode full_gate) in
    let (some_done, some_wakes) = release_all 2 state in
    let (all_done, all_wakes) = release_all 3 state in
    ((admit some_done true).1 ≡ false)
    × (some_wakes ≡ 0)
    × (all_wakes ≡ 1)
    × (admit all_done true ≡ (encode (record { count = 1; drain = false; redraw = false }), true))
defer_until_idle_drains_example = defer_until_idle_drains full_gate 2 (omega arith) (omega arith)

-- Two frames read a reservation; the first completes, the reservation is retired.
abbrev frame_steps : List Renderer.Op
frame_steps =
    Renderer.reserve 3 0 none
    ∷ Renderer.begin_frame
    ∷ Renderer.retain 0 0
    ∷ Renderer.begin_frame
    ∷ Renderer.retain 1 0
    ∷ Renderer.finish 0
    ∷ Renderer.retire 0 true
    ∷ Renderer.drop 0
    ∷ []

run-start-IsTracked_example : IsTracked (Renderer.run (Renderer.start small) frame_steps)
run-start-IsTracked_example = run-start-IsTracked small frame_steps

-- Three versions: one that frame 7 reads, the idle current one, and an idle alternate.
abbrev busy : ℕ → Bool
busy frame = frame == 7

abbrev texture : Versions ℕ
texture = record {
  versions =
      record { resource = 10; readers = 7 ∷ 4 ∷ [] }
      ∷ record { resource = 20; readers = 4 ∷ [] }
      ∷ record { resource = 30; readers = [] }
      ∷ [];
  current = 1;
}

abbrev is_thirty : ℕ → Bool
is_thirty a = a == 30

abbrev upload : Option ℕ → Bool → Option ℕ
upload existing is_current = some 99

-- Frame 7 completes after the third test; all versions are read until then.
abbrev busy_until : ℕ → ℕ → Bool
busy_until i frame = (frame == 7) && ltb i 3

busy_until-final : (i frame : ℕ) → busy_until i frame ≡ false → busy_until (suc i) frame ≡ false
busy_until-final i frame e = ground arith

abbrev read_texture : Versions ℕ
read_texture = record {
  versions =
      record { resource = 10; readers = 7 ∷ [] } ∷ record { resource = 20; readers = 7 ∷ [] } ∷ [];
  current = 1;
}

update_target_during-GoesTo_example :
    let (t', r) = update_target_during busy_until read_texture is_thirty in
    GoesTo busy_until is_thirty read_texture.versions r
    × (views (busy_until 6) t'.versions ≡ views (busy_until 6) read_texture.versions)
    × (t'.current ≡ 1)
update_target_during-GoesTo_example =
    update_target_during-GoesTo busy_until busy_until-final read_texture is_thirty

-- The current version is idle at the fourth test.
during-current : (update_target_during busy_until read_texture is_thirty).1 ≡ ok 1
unfolding update_target_during compatible_from current_from any_from position_from test_at
during-current = refl

update_matching-Outcome_example :
    Outcome busy upload
      (views busy texture.versions)
      1
      (update_matching busy texture is_thirty upload)
update_matching-Outcome_example = update_matching-Outcome busy upload texture is_thirty

read_versions_kept_example :
    get_elem? (views busy (update_matching busy texture is_thirty upload).0.versions) 0
    ≡ some (10, 7 ∷ [])
read_versions_kept_example = read_versions_kept busy upload texture is_thirty 0 7 10 [] refl

retain_idle_spare_lem_example :
    let (t', n) = retain_idle_spare busy texture is_thirty in
    (get_elem? t'.versions t'.current ≡ some record { resource = 20; readers = 4 ∷ [] })
    × (reading (views busy t'.versions) ≡ reading (views busy texture.versions))
    × (idles (views busy t'.versions) ≤ 2)
    × (n + length t'.versions ≡ 3)
    × (views busy t'.versions
        ≡ kept 1
            (first_spare 1 is_thirty 0 (views busy texture.versions))
            0
            (views busy texture.versions))
retain_idle_spare_lem_example =
    retain_idle_spare_lem busy texture is_thirty (record { resource = 20; readers = 4 ∷ [] }) refl
