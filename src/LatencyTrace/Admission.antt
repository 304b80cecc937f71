-- ===== src/LatencyTrace/Admission.antt =====
-- The admission word of a capture (src/latency_trace.rs, Counts).
use cocoa_way.Base.{
  ℕ, ◌+◌, ◌-◌, ◌*◌, ◌^◌, ◌<◌, bit_and, bit_or, bit_and_split, bit_or_split, bit_and-zero,
  bit_or-zero, ◌≡◌, refl, inl, inr, Bool, true, false, nat_of, ltb, ==_iff, ltb→lt, arith,
  Bool-cases,
}
use native.Mathlib.Nat.{zero-add}
use cocoa_way.LatencyTrace.{Counts, capture_closed, enter, close, closed_and_idle, leave, admitted}

-- The word of so many calls.
abbrev pub encode : ℕ → Bool → ℕ
encode calls is_closed = calls + 2 ^ 63 * nat_of is_closed

module _ (calls : ℕ) (small : calls < 2 ^ 63) where
  masked : (h : ℕ) → bit_and (calls + 2 ^ 63 * h) (2 ^ 63 * 1) ≡ 2 ^ 63 * bit_and h 1
  masked h =
      let split = rw zero-add at (bit_and_split 63 calls h 0 1 small (omega arith)) in
      omega (arith, split, bit_and-zero calls)

  joined : (h : ℕ) → bit_or (calls + 2 ^ 63 * h) (2 ^ 63 * 1) ≡ calls + 2 ^ 63 * bit_or h 1
  joined h =
      let split = rw zero-add at (bit_or_split 63 calls h 0 1 small (omega arith)) in
      omega (arith, split, bit_or-zero calls)

  closed_bit : (b : Bool) → bit_and (encode calls b) capture_closed ≡ 2 ^ 63 * nat_of b
  closed_bit true = masked 1
  closed_bit false = masked 0

  close-encode : (b : Bool) → bit_or (encode calls b) capture_closed ≡ encode calls true
  close-encode true = joined 1
  close-encode false = joined 0

-- The word of a capture is that of its live calls, with the flag of its end.
unfoldable pub IsAdmission : Counts → ℕ → Bool → Type 0
IsAdmission c calls b = (c.admission ≡ encode calls b) × (calls < 2 ^ 63)

pub close-IsAdmission :
    (c : Counts) (calls : ℕ) (b : Bool) → IsAdmission c calls b → IsAdmission (close c) calls true
unfolding IsAdmission close
close-IsAdmission c calls b (word, small) = (rw word (close-encode calls small b), small)

-- A call is admitted if the capture is open, and then counted; a closed capture stays as it is.
pub enter-IsAdmission :
    (c : Counts) (calls : ℕ) (b : Bool)
    → IsAdmission c calls b
    → IsAdmission (enter c).0 (admitted (enter c).1 + calls) b
      × (b ≡ true → admitted (enter c).1 ≡ 0)
      × ((enter c).0.dropped ≡ c.dropped)
      × ((enter c).0.rejected ≡ c.rejected)
unfolding IsAdmission enter
enter-IsAdmission c calls true (word, small) =
    let set : bit_and c.admission capture_closed ≡ 2 ^ 63 = rw word (closed_bit calls small true) in
    rw set ((omega (arith, word), omega arith), λ e. refl, refl, refl)
enter-IsAdmission c calls false (word, small) =
    let unset : bit_and c.admission capture_closed ≡ 0 = rw word (closed_bit calls small false) in
    elim (Bool-cases (ltb c.admission (capture_closed - 1))) [
      | inl room ↦
          let below = ltb→lt c.admission (capture_closed - 1) room in
          rw (unset, room)
            ((omega (arith, word), omega (arith, word, below)), λ e. ground arith, refl, refl)
      | inr full ↦ rw (unset, full) ((omega (arith, word), omega arith), λ e. refl, refl, refl)
    ]

pub leave-IsAdmission :
    (c : Counts) (calls : ℕ) (b : Bool)
    → 0 < calls
    → IsAdmission c calls b
    → IsAdmission (leave c) (calls - 1) b
unfolding IsAdmission leave
leave-IsAdmission c calls b some_call (word, small) = (omega (arith, word), omega arith)

pub closed_and_idle_sound :
    (c : Counts) (calls : ℕ) (b : Bool)
    → IsAdmission c calls b
    → closed_and_idle c ≡ true
    → (b ≡ true) × (calls ≡ 0)
unfolding IsAdmission closed_and_idle
closed_and_idle_sound c calls true (word, small) h =
    (refl, let same = (==_iff c.admission capture_closed).0 h in omega (arith, word, same))
closed_and_idle_sound c calls false (word, small) h =
    let same = (==_iff c.admission capture_closed).0 h in absurd (omega (arith, word, same))
