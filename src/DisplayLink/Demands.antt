-- ===== src/DisplayLink/Demands.antt =====
-- Histories of a display link (src/display_link.rs): what the demand says of the drawable that is held
-- and of the native link, and how drawables and redraws keep to the requests.
use cocoa_way.Base.{ℕ, ◌+◌, ◌≡◌, refl, Bool, true, false, Option, none, some, List, [], ◌∷◌, arith}
use cocoa_way.DisplayLink.{
  Demand, idle, waiting, ready_demand, NativeFrameSource, arm_demand, Op, op_request, op_take,
  op_drop, op_update, accept_ready, take_ready, clear_ready, new, request_frame, take_drawable,
  update_for, needs_update, drop_source,
}

-- A source with how many redraws its updates asked for, and how many drawables were taken or let go.
pub record Tally {ℓ} (T : Type ℓ) : Type ℓ where
  pub source : NativeFrameSource T
  pub redraws : ℕ
  pub outs : ℕ

abbrev pub count : Bool → ℕ
count false = 0
count true = 1

-- The demand, the drawable that is held and whether the native link is paused go together.
pub data Fits {ℓ} {T : Type ℓ} : Demand → Option T → Bool → Type ℓ where
  fits_idle : Fits idle none true
  fits_waiting : Fits waiting none false
  fits_ready : {value : T} → Fits ready_demand (some value) true

module _ {ℓ} {T : Type ℓ} where
  abbrev pub given : Option T → ℕ
  given none = 0
  given (some value) = 1

  unfoldable pub step : Tally T → Op T → Tally T
  step t op_request = record { source = request_frame t.source; redraws = t.redraws; outs = t.outs }
  step t (op_update drawable) =
      let (s, redraw) = needs_update t.source drawable in
      record { source = s; redraws = count redraw + t.redraws; outs = t.outs }
  step t op_take =
      let (s, out) = take_drawable t.source in
      record { source = s; redraws = t.redraws; outs = given out + t.outs }
  step t op_drop =
      let (s, out) = drop_source t.source in
      record { source = s; redraws = t.redraws; outs = given out + t.outs }

  unfoldable pub run : Tally T → List (Op T) → Tally T
  run t [] = t
  run t (op ∷ ops) = run (step t op) ops

  abbrev pub start : Tally T
  start = record { source = new; redraws = 0; outs = 0 }

  pub IsPaced : Tally T → Type ℓ
  IsPaced t =
      Fits t.source.demand t.source.ready t.source.paused
      × given t.source.ready + t.outs ≡ t.redraws

  parts-IsPaced :
      (d : Demand) (r : Option T) (p : Bool) (a o : ℕ) (op : Op T)
      → Fits d r p
      → given r + o ≡ a
      → IsPaced (
          step
            (record {
              source = record { demand = d; ready = r; paused = p };
              redraws = a;
              outs = o;
            })
            op)
  unfolding IsPaced step arm_demand accept_ready take_ready clear_ready request_frame take_drawable
      update_for needs_update drop_source
  parts-IsPaced _ _ _ a o op_request fits_idle h = (fits_waiting, omega arith)
  parts-IsPaced _ _ _ a o op_request fits_waiting h = (fits_waiting, omega arith)
  parts-IsPaced _ _ _ a o op_request fits_ready h = (fits_ready, omega arith)
  parts-IsPaced _ _ _ a o op_take fits_idle h = (fits_idle, omega arith)
  parts-IsPaced _ _ _ a o op_take fits_waiting h = (fits_waiting, omega arith)
  parts-IsPaced _ _ _ a o op_take fits_ready h = (fits_idle, omega arith)
  parts-IsPaced _ _ _ a o op_drop fits_idle h = (fits_idle, omega arith)
  parts-IsPaced _ _ _ a o op_drop fits_waiting h = (fits_idle, omega arith)
  parts-IsPaced _ _ _ a o op_drop fits_ready h = (fits_idle, omega arith)
  parts-IsPaced _ _ _ a o (op_update v) fits_idle h = (fits_idle, omega arith)
  parts-IsPaced _ _ _ a o (op_update none) fits_waiting h = (fits_waiting, omega arith)
  parts-IsPaced _ _ _ a o (op_update (some v)) fits_waiting h = (fits_ready, omega arith)
  parts-IsPaced _ _ _ a o (op_update v) fits_ready h = (fits_ready, omega arith)

  step-IsPaced : (t : Tally T) (op : Op T) → IsPaced t → IsPaced (step t op)
  unfolding IsPaced
  step-IsPaced t op h =
      parts-IsPaced t.source.demand t.source.ready t.source.paused t.redraws t.outs op h.0 h.1

  run-IsPaced : (t : Tally T) (ops : List (Op T)) → IsPaced t → IsPaced (run t ops)
  unfolding run
  run-IsPaced t [] h = h
  run-IsPaced t (op ∷ ops) h = run-IsPaced (step t op) ops (step-IsPaced t op h)

  -- From a new source, after any requests, updates, takes and drops: the native link runs exactly
  -- while a frame is awaited, a drawable is held exactly while the demand is ready, and the redraws
  -- asked for are as many as the drawables taken or let go with the one that is held.
  pub run-start-IsPaced : (ops : List (Op T)) → IsPaced (run start ops)
  unfolding IsPaced
  run-start-IsPaced ops = run-IsPaced start ops (fits_idle, refl)
