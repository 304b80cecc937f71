-- ===== src/Clipboard.antt =====
-- Outgoing clipboard transfers (src/clipboard_transfer.rs, TransferBudget): eight workers and 128 MiB
-- at most. The two counters are atomics of their own, so a reservation and the drop of a
-- permit are two steps each, between which other threads take theirs.
pub mod Transfers
pub mod Images
pub mod Contents
pub mod Places
pub mod Started
use cocoa_way.Base.{
  ℕ, zero, suc, ◌+◌, ◌-◌, ◌*◌, ◌^◌, ◌≡◌, Bool, true, false, Option, none, some, List, [], ◌∷◌,
  if◌then◌else◌, ltb, leb,
}

abbrev pub max_transfers : ℕ
max_transfers = 8

abbrev pub max_transfer_bytes : ℕ
max_transfer_bytes = 64 * 1024 * 1024

abbrev pub max_total_bytes : ℕ
max_total_bytes = 128 * 1024 * 1024

-- `usize::checked_add`.
unfoldable pub checked_add : ℕ → ℕ → Option ℕ
checked_add a b = if ltb (a + b) (2 ^ 64) then some (a + b) else none

unfoldable pub filter_limit : Option ℕ → ℕ → Option ℕ
filter_limit none limit = none
filter_limit (some total) limit = if leb total limit then some total else none

-- What the exchange of try_add that takes effect stores, from the value that it exchanges; `none` is
-- the answer false.
unfoldable pub try_add : ℕ → ℕ → ℕ → Option ℕ
try_add used amount limit = filter_limit (checked_add used amount) limit

-- Where a thread stands that has counted itself in: it has still to reserve its bytes, it has been
-- refused them, it holds its permit, or it has given the bytes of the permit back.
pub data Phase : Type 0 where
  counted refused held released : ℕ → Phase

pub record TransferBudget : Type 0 where
  pub active : ℕ
  pub bytes : ℕ

pub data TransferError : Type 0 where
  too_large worker_limit byte_budget : TransferError

unfoldable pub counted_if :
    Option ℕ → ℕ → TransferBudget → TransferBudget × Option Phase × Option TransferError
counted_if none bytes t = (t, none, some worker_limit)
counted_if (some active) bytes t = (record t { active = active }, some (counted bytes), none)

-- TransferBudget::reserve up to its first exchange.
unfoldable pub begin_reserve :
    TransferBudget → ℕ → TransferBudget × Option Phase × Option TransferError
begin_reserve t bytes =
    if ltb max_transfer_bytes bytes
    then (t, none, some too_large)
    else counted_if (try_add t.active 1 max_transfers) bytes t

unfoldable pub held_if :
    Option ℕ → ℕ → TransferBudget → TransferBudget × Option Phase × Option TransferError
held_if none bytes t = (t, some (refused bytes), none)
held_if (some total) bytes t = (record t { bytes = total }, some (held bytes), none)

-- The next step of a thread: the second exchange of its reservation, the way back from a refusal, or one
-- of the two subtractions of TransferPermit::drop. `fetch_sub` would wrap below 0.
unfoldable pub advance :
    TransferBudget → Phase → TransferBudget × Option Phase × Option TransferError
advance t (counted bytes) = held_if (try_add t.bytes bytes max_total_bytes) bytes t
advance t (refused bytes) = (record t { active = t.active - 1 }, none, some byte_budget)
advance t (held bytes) = (record t { bytes = t.bytes - bytes }, some (released bytes), none)
advance t (released bytes) = (record t { active = t.active - 1 }, none, none)
