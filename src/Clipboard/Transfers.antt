-- ===== src/Clipboard/Transfers.antt =====
-- Transfers in any order of the steps of their threads (src/clipboard_transfer.rs).
use cocoa_way.Base.{
  ℕ, zero, suc, ◌+◌, ◌≤◌, ◌≡◌, refl, Option, none, some, List, [], ◌∷◌, length, arith,
}
use cocoa_way.Clipboard.{
  max_transfers, max_total_bytes, checked_add, filter_limit, try_add, Phase, counted, refused, held,
  released, TransferBudget, TransferError, counted_if, begin_reserve, held_if, advance,
}

pub record Transfers : Type 0 where
  pub budget : TransferBudget
  pub threads : List Phase

pub data Op : Type 0 where
  op_reserve : ℕ → Op
  op_advance : ℕ → Op

unfoldable pub joined :
    TransferBudget × Option Phase × Option TransferError → List Phase → Transfers
joined (t, none, e) threads = record { budget = t; threads = threads }
joined (t, some phase, e) threads = record { budget = t; threads = phase ∷ threads }

-- The i-th thread takes its next step.
unfoldable pub advance_at : ℕ → TransferBudget → List Phase → Transfers
advance_at i t [] = record { budget = t; threads = [] }
advance_at zero t (p ∷ ps) = joined (advance t p) ps
advance_at (suc i) t (p ∷ ps) =
    let s = advance_at i t ps in record { budget = s.budget; threads = p ∷ s.threads }

unfoldable pub step : Transfers → Op → Transfers
step s (op_reserve bytes) = joined (begin_reserve s.budget bytes) s.threads
step s (op_advance i) = advance_at i s.budget s.threads

unfoldable pub run : Transfers → List Op → Transfers
run s [] = s
run s (op ∷ ops) = run (step s op) ops

abbrev pub start : Transfers
start = record { budget = record { active = 0; bytes = 0 }; threads = [] }

-- The bytes that a thread holds.
abbrev pub bytes_of : Phase → ℕ
bytes_of (counted bytes) = 0
bytes_of (refused bytes) = 0
bytes_of (held bytes) = bytes
bytes_of (released bytes) = 0

abbrev pub total : List Phase → ℕ
total [] = 0
total (p ∷ ps) = bytes_of p + total ps

-- The counters are exact, with `n` and `b` for the threads that stand elsewhere, and below their limits.
pub Exact : TransferBudget → List Phase → ℕ → ℕ → Type 0
Exact t ps n b =
    (t.active ≡ length ps + n)
    × (t.bytes ≡ total ps + b)
    × (t.active ≤ max_transfers)
    × (t.bytes ≤ max_total_bytes)

advance-Exact :
    (t : TransferBudget) (p : Phase) (ps : List Phase) (n b : ℕ)
    → Exact t (p ∷ ps) n b
    → let s = joined (advance t p) ps in Exact s.budget s.threads n b
unfolding Exact advance joined held_if try_add checked_add filter_limit
advance-Exact t (counted bytes) ps n b x = ground arith
advance-Exact t (refused bytes) ps n b x = omega arith
advance-Exact t (held bytes) ps n b x = omega arith
advance-Exact t (released bytes) ps n b x = omega arith

Exact-out :
    (t : TransferBudget) (p : Phase) (ps : List Phase) (n b : ℕ)
    → Exact t (p ∷ ps) n b
    → Exact t ps (suc n) (bytes_of p + b)
unfolding Exact
Exact-out t p ps n b x = omega arith

Exact-in :
    (i : ℕ) (t : TransferBudget) (p : Phase) (ps : List Phase) (n b : ℕ)
    → let s = advance_at i t ps in
      Exact s.budget s.threads (suc n) (bytes_of p + b) → Exact s.budget (p ∷ s.threads) n b
unfolding Exact
Exact-in i t p ps n b x = omega arith

advance_at-Exact :
    (i : ℕ) (t : TransferBudget) (ps : List Phase) (n b : ℕ)
    → Exact t ps n b
    → let s = advance_at i t ps in Exact s.budget s.threads n b
unfolding advance_at
advance_at-Exact i t [] n b x = x
advance_at-Exact zero t (p ∷ ps) n b x = advance-Exact t p ps n b x
advance_at-Exact (suc i) t (p ∷ ps) n b x =
    Exact-in i t p ps n b
      (advance_at-Exact i t ps (suc n) (bytes_of p + b) (Exact-out t p ps n b x))

reserve-Exact :
    (t : TransferBudget) (bytes : ℕ) (ps : List Phase)
    → Exact t ps 0 0
    → let s = joined (begin_reserve t bytes) ps in Exact s.budget s.threads 0 0
unfolding Exact begin_reserve joined counted_if try_add checked_add filter_limit
reserve-Exact t bytes ps x = ground arith

step-Exact :
    (s : Transfers) (op : Op)
    → Exact s.budget s.threads 0 0
    → Exact (step s op).budget (step s op).threads 0 0
unfolding step
step-Exact s (op_reserve bytes) x = reserve-Exact s.budget bytes s.threads x
step-Exact s (op_advance i) x = advance_at-Exact i s.budget s.threads 0 0 x

run-Exact :
    (s : Transfers) (ops : List Op)
    → Exact s.budget s.threads 0 0
    → Exact (run s ops).budget (run s ops).threads 0 0
unfolding run
run-Exact s [] x = x
run-Exact s (op ∷ ops) x = run-Exact (step s op) ops (step-Exact s op x)

-- In any order of the steps of the threads, the counters are exactly the threads that have counted
-- themselves in and the bytes that are held, at most 8 threads and 128 MiB.
pub run-start-Exact : (ops : List Op) → Exact (run start ops).budget (run start ops).threads 0 0
unfolding Exact
run-start-Exact ops = run-Exact start ops (refl, refl, omega arith, omega arith)
