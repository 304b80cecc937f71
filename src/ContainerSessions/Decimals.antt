-- ===== src/ContainerSessions/Decimals.antt =====
-- The decimal form of a number in a line (src/container_sessions.rs, session_to_toml).
use cocoa_way.Base.{
  ℕ, zero, suc, ◌+◌, ◌-◌, ◌*◌, ◌/◌, ◌%◌, ◌<◌, ◌≡◌, refl, sym, ap, ◌∙◌, inl, inr, Bool, true, false,
  List, [], ◌∷◌, ◌++◌, ◌==◌, ==_iff, arith, Bool-cases, any,
}
use cocoa_way.ContainerSessions.{decimal}
use cocoa_way.ContainerSessions.Lines.{starts_bare}

-- The number that digits stand for.
abbrev value_of : ℕ → List ℕ → ℕ
value_of n [] = n
value_of n (c ∷ text) = value_of (n * 10 + (c - 48)) text

value_of-append :
    (n d : ℕ) (text : List ℕ) → value_of n (text ++ d ∷ []) ≡ value_of n text * 10 + (d - 48)
value_of-append n d [] = refl
value_of-append n d (c ∷ text) = value_of-append (n * 10 + (c - 48)) d text

value_of-decimal : (fuel n : ℕ) → n < fuel → value_of 0 (decimal fuel n) ≡ n
unfolding decimal
value_of-decimal zero n enough = absurd (omega arith)
value_of-decimal (suc fuel) n enough = elim (Bool-cases (n / 10 == 0)) [
  | inl short ↦ let small = (==_iff (n / 10) 0).0 short in rw short (omega (arith, small))
  | inr long ↦
      let large : 0 < n / 10 = ground arith in
      let front = value_of-decimal fuel (n / 10) (omega (arith, large)) in
      rw long (omega (arith, value_of-append 0 (48 + n % 10) (decimal fuel (n / 10)), front))
]

pub decimal_injective : (m n : ℕ) → decimal (suc m) m ≡ decimal (suc n) n → m ≡ n
decimal_injective m n same =
    let one = value_of-decimal (suc m) m (omega arith) in
    let other = value_of-decimal (suc n) n (omega arith) in sym one ∙ (ap (value_of 0) same ∙ other)

any-append :
    (test : ℕ → Bool) (text : List ℕ) (d : ℕ)
    → any test text ≡ false
    → test d ≡ false
    → any test (text ++ d ∷ []) ≡ false
unfolding any
any-append test [] d h last = rw last refl
any-append test (c ∷ text) d h last = ground (arith, any-append test text d)

starts_bare-append :
    (text : List ℕ) (d : ℕ)
    → starts_bare text ≡ true
    → (d == 10) ≡ false
    → starts_bare (text ++ d ∷ []) ≡ true
starts_bare-append [] d h last = cc
starts_bare-append (c ∷ text) d h last =
    let front : any (λ e. e == 10) (c ∷ text) ≡ false = ground arith in
    let whole = any-append (λ e. e == 10) (c ∷ text) d front last in ground (arith, whole)

pub starts_bare-decimal : (fuel n : ℕ) → n < fuel → starts_bare (decimal fuel n) ≡ true
unfolding decimal any
starts_bare-decimal zero n enough = absurd (omega arith)
starts_bare-decimal (suc fuel) n enough =
    let digit : n % 10 < 10 = omega arith in
    elim (Bool-cases (n / 10 == 0)) [
      | inl short ↦ rw short (ground arith)
      | inr long ↦
          let large : 0 < n / 10 = ground arith in
          let front = starts_bare-decimal fuel (n / 10) (omega (arith, large)) in
          rw long (starts_bare-append (decimal fuel (n / 10)) (48 + n % 10) front (ground arith))
    ]
