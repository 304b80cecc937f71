-- ===== src/ProcessOutput/Queue.antt =====
-- The budget of the lines that wait for the user interface (src/process_output.rs).
use cocoa_way.Base.{
  ℕ, zero, suc, ◌+◌, ◌≤◌, ◌≡◌, refl, Option, none, some, List, [], ◌∷◌, length, arith,
}
use cocoa_way.ProcessOutput.{
  Usage, LogPermit, max_queued_lines, max_queued_bytes, reserve, drop_permit,
}

-- The permits that are alive, and the usage.
pub record Queue : Type 0 where
  pub usage : Usage
  pub permits : List LogPermit

abbrev pub total : List LogPermit → ℕ
total [] = 0
total (p ∷ ps) = p.bytes + total ps

pub data Op : Type 0 where
  op_reserve : ℕ → Op
  op_drop : ℕ → Op

unfoldable pub granted : Usage × Option LogPermit → List LogPermit → Queue
granted (u, none) permits = record { usage = u; permits = permits }
granted (u, some permit) permits = record { usage = u; permits = permit ∷ permits }

-- The drop of the i-th permit that is alive.
unfoldable pub drop_at : ℕ → Usage → List LogPermit → Queue
drop_at i u [] = record { usage = u; permits = [] }
drop_at zero u (p ∷ ps) = record { usage = drop_permit u p; permits = ps }
drop_at (suc i) u (p ∷ ps) =
    let q = drop_at i u ps in record { usage = q.usage; permits = p ∷ q.permits }

unfoldable pub step : Queue → Op → Queue
step q (op_reserve bytes) = granted (reserve q.usage bytes) q.permits
step q (op_drop i) = drop_at i q.usage q.permits

unfoldable pub run : Queue → List Op → Queue
run q [] = q
run q (op ∷ ops) = run (step q op) ops

abbrev pub start : Queue
start = record { usage = record { lines = 0; bytes = 0 }; permits = [] }

pub record IsCounted (q : Queue) : Type 0 where
  pub lines : q.usage.lines ≡ length q.permits
  pub bytes : q.usage.bytes ≡ total q.permits
  pub few : q.usage.lines ≤ max_queued_lines
  pub small : q.usage.bytes ≤ max_queued_bytes

reserve-IsCounted :
    (q : Queue) (bytes : ℕ) → IsCounted q → IsCounted (granted (reserve q.usage bytes) q.permits)
unfolding reserve granted
reserve-IsCounted q bytes c = ground arith

-- The parts of a drop, so that the permits before the i-th are carried along.
drop_at-counts :
    (i : ℕ) (u : Usage) (ps : List LogPermit) (n b : ℕ)
    → u.lines ≡ length ps + n
    → u.bytes ≡ total ps + b
    → let q = drop_at i u ps in
      (q.usage.lines ≡ length q.permits + n)
      × (q.usage.bytes ≡ total q.permits + b)
      × (q.usage.lines ≤ u.lines)
      × (q.usage.bytes ≤ u.bytes)
unfolding drop_at drop_permit
drop_at-counts i u [] n b l s = (l, s, omega arith, omega arith)
drop_at-counts zero u (p ∷ ps) n b l s = (omega arith, omega arith, omega arith, omega arith)
drop_at-counts (suc i) u (p ∷ ps) n b l s =
    let (l', s', less, fewer) =
      drop_at-counts i u ps (suc n) (p.bytes + b) (omega arith) (omega arith) in
    (omega (arith, l'), omega (arith, s'), less, fewer)

step-IsCounted : (q : Queue) (op : Op) → IsCounted q → IsCounted (step q op)
unfolding step
step-IsCounted q (op_reserve bytes) c = reserve-IsCounted q bytes c
step-IsCounted q (op_drop i) c =
    let (l, s, less, fewer) =
      drop_at-counts i q.usage q.permits 0 0 (omega (arith, c.lines)) (omega (arith, c.bytes)) in
    record {
      lines = omega (arith, l);
      bytes = omega (arith, s);
      few = omega (arith, less, c.few);
      small = omega (arith, fewer, c.small);
    }

run-IsCounted : (q : Queue) (ops : List Op) → IsCounted q → IsCounted (run q ops)
unfolding run
run-IsCounted q [] c = c
run-IsCounted q (op ∷ ops) c = run-IsCounted (step q op) ops (step-IsCounted q op c)

-- After any reservations and drops of permits, in any order, the usage is the number and the bytes of
-- the permits that are alive, at most 256 of them and 4 MiB.
pub run-start-IsCounted : (ops : List Op) → IsCounted (run start ops)
run-start-IsCounted ops =
    run-IsCounted start ops
      (record { lines = refl; bytes = refl; few = omega arith; small = omega arith })
