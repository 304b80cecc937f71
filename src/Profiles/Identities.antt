-- ===== src/Profiles/Identities.antt =====
-- Reservations of runtime identities (src/profile_activity.rs: reserve_identity, RuntimeReservation).
use cocoa_way.Base.{
  ℕ, zero, suc, ◌+◌, ◌≤◌, ◌≡◌, subst, refl, sym, ap, ◌∙◌, inl, inr, Bool, true, false, not, ◌&&◌,
  Option, none, some, List, [], ◌∷◌, ◌==◌, ==_iff, if◌then◌else◌, is_some, arith, Bool-cases,
  update, nat_of, Option-cases, get_elem?,
}

pub record RuntimeReservation : Type 0 where
  pub key : ℕ
  pub id : ℕ
  pub generation : ℕ

pub record Identities : Type 0 where
  pub identities : ℕ → Option (ℕ × ℕ)
  pub reserved : List RuntimeReservation

pub data Refusal : Type 0 where
  unsaved_profile already_reserved : Refusal

unfoldable pub new : Identities
new = record { identities = λ _. none; reserved = [] }

unfoldable pub reserve_identity :
    Identities → Bool → RuntimeReservation → Identities × Option Refusal
reserve_identity s saved r =
    if not saved
    then (s, some unsaved_profile)
    else if is_some (s.identities r.key)
    then (s, some already_reserved)
    else (
      record {
        identities = update s.identities r.key (some (r.id, r.generation));
        reserved = r ∷ s.reserved;
      },
      none,
    )

-- `identity_reserved_by_other`
unfoldable pub reserved_by_other : Identities → ℕ → Option ℕ → Bool
reserved_by_other s key replacing = elim (s.identities key) [
  | none ↦ false
  | some (id, generation) ↦ not (elim replacing [ none ↦ false | some other ↦ other == id ])
]

abbrev pub is_owner : Option (ℕ × ℕ) → RuntimeReservation → Bool
is_owner none r = false
is_owner (some (id, generation)) r = (id == r.id) && (generation == r.generation)

abbrev pub remove_at : ℕ → List RuntimeReservation → List RuntimeReservation
remove_at i [] = []
remove_at zero (r ∷ rs) = rs
remove_at (suc i) (r ∷ rs) = r ∷ remove_at i rs

-- `drop` of the reservation at place `i` of those that are alive.
unfoldable pub drop_reservation : Identities → ℕ → Identities
drop_reservation s i = elim (get_elem? s.reserved i) [
  | none ↦ s
  | some r ↦ record {
    identities =
        if is_owner (s.identities r.key) r then update s.identities r.key none else s.identities;
    reserved = remove_at i s.reserved;
  }
]

pub data Op : Type 0 where
  op_reserve : Bool → RuntimeReservation → Op
  op_drop : ℕ → Op

unfoldable pub step : Identities → Op → Identities
step s (op_reserve saved r) = (reserve_identity s saved r).0
step s (op_drop i) = drop_reservation s i

unfoldable pub run : Identities → List Op → Identities
run s [] = s
run s (op ∷ ops) = run (step s op) ops

-- How many live reservations a key has, and the owner of the first.
abbrev pub holders : ℕ → List RuntimeReservation → ℕ
holders key [] = 0
holders key (r ∷ rs) = nat_of (r.key == key) + holders key rs

abbrev pub owner_of : ℕ → List RuntimeReservation → Option (ℕ × ℕ)
owner_of key [] = none
owner_of key (r ∷ rs) =
    let rest = owner_of key rs in if r.key == key then some (r.id, r.generation) else rest

owner_of-none :
    (key : ℕ) (rs : List RuntimeReservation) → holders key rs ≡ 0 → owner_of key rs ≡ none
owner_of-none key [] e = refl
owner_of-none key (r ∷ rs) e = ground (arith, owner_of-none key rs)

holders-none :
    (key : ℕ) (rs : List RuntimeReservation) → owner_of key rs ≡ none → holders key rs ≡ 0
holders-none key [] e = refl
holders-none key (r ∷ rs) e = ground (arith, holders-none key rs)

holders-remove_at :
    (key i : ℕ) (rs : List RuntimeReservation) (r : RuntimeReservation)
    → get_elem? rs i ≡ some r
    → nat_of (r.key == key) + holders key (remove_at i rs) ≡ holders key rs
holders-remove_at key i [] r e = cc
holders-remove_at key zero (x ∷ rs) r e =
    let same : x ≡ r = cc in
    ap (λ (y : RuntimeReservation). nat_of (y.key == key) + holders key rs) (sym same)
holders-remove_at key (suc i) (x ∷ rs) r e =
    let later = holders-remove_at key i rs r e in omega (arith, later)

-- The only reservation of a key owns it.
owner_of-single :
    (i : ℕ) (rs : List RuntimeReservation) (r : RuntimeReservation)
    → get_elem? rs i ≡ some r
    → holders r.key rs ≤ 1
    → owner_of r.key rs ≡ some (r.id, r.generation)
owner_of-single i [] r e few = cc
owner_of-single zero (x ∷ rs) r e few =
    let same : x ≡ r = cc in
    subst (λ (y : RuntimeReservation). owner_of y.key (x ∷ rs) ≡ some (y.id, y.generation)) same
      (ground arith)
owner_of-single (suc i) (x ∷ rs) r e few =
    let later = holders-remove_at r.key i rs r e in ground (arith, owner_of-single i rs r e)

owner_of-remove_at :
    (key i : ℕ) (rs : List RuntimeReservation) (r : RuntimeReservation)
    → get_elem? rs i ≡ some r
    → (r.key == key) ≡ false
    → owner_of key (remove_at i rs) ≡ owner_of key rs
owner_of-remove_at key i [] r e away = cc
owner_of-remove_at key zero (x ∷ rs) r e away =
    let same : x ≡ r = cc in
    let key_same = ap (λ (y : RuntimeReservation). y.key) same in ground (arith, key_same)
owner_of-remove_at key (suc i) (x ∷ rs) r e away =
    ground (arith, owner_of-remove_at key i rs r e away)

-- The map holds the owner of each live reservation, and a key has one at most.
pub record IsExclusive (s : Identities) : Type 0 where
  pub owned : (key : ℕ) → s.identities key ≡ owner_of key s.reserved
  pub single : (key : ℕ) → holders key s.reserved ≤ 1

is_none : (o : Option (ℕ × ℕ)) → is_some o ≡ false → o ≡ none
is_none none e = refl
is_none (some a) e = cc

reserve_identity-IsExclusive :
    (s : Identities) (saved : Bool) (r : RuntimeReservation)
    → IsExclusive s
    → IsExclusive (reserve_identity s saved r).0
unfolding reserve_identity
reserve_identity-IsExclusive s false r v = v
reserve_identity-IsExclusive s true r v = elim (Bool-cases (is_some (s.identities r.key))) [
  | inl taken ↦ rw (taken, reserve_identity) v
  | inr free ↦
      rw (free, reserve_identity)
        (record {
          owned = λ key. ground (arith, v.owned key);
          single = λ key. elim (Bool-cases (r.key == key)) [
            | inl same ↦
                let here : r.key ≡ key = (==_iff r.key key).0 same in
                let clear = holders-none r.key s.reserved (sym (v.owned r.key) ∙ is_none _ free) in
                let clear_here = subst (λ k. holders k s.reserved ≡ 0) here clear in
                ground (arith, clear_here)
            | inr other ↦ ground (arith, v.single key)
          ];
        })
]

drop_reservation-IsExclusive :
    (s : Identities) (i : ℕ) → IsExclusive s → IsExclusive (drop_reservation s i)
unfolding drop_reservation
drop_reservation-IsExclusive s i v = elim (Option-cases (get_elem? s.reserved i)) [
  | inl gone ↦ rw (gone, drop_reservation) v
  | inr (r, there) ↦
      let mine = v.owned r.key ∙ owner_of-single i s.reserved r there (v.single r.key) in
      let same : is_owner (s.identities r.key) r ≡ true = rw mine (ground arith) in
      rw (there, same, drop_reservation)
        (record {
          owned = λ key. elim (Bool-cases (r.key == key)) [
            | inl here ↦
                let left = holders-remove_at key i s.reserved r there in
                let gone =
                  owner_of-none key (remove_at i s.reserved) (ground (arith, v.single key, left)) in
                ground (arith, gone)
            | inr away ↦
                let kept = owner_of-remove_at key i s.reserved r there away in
                ground (arith, kept, v.owned key)
          ];
          single = λ key. omega (arith, holders-remove_at key i s.reserved r there, v.single key);
        })
]

run-IsExclusive : (ops : List Op) (s : Identities) → IsExclusive s → IsExclusive (run s ops)
unfolding run step
run-IsExclusive [] s v = v
run-IsExclusive (op_reserve saved r ∷ ops) s v =
    run-IsExclusive ops _ (reserve_identity-IsExclusive s saved r v)
run-IsExclusive (op_drop i ∷ ops) s v = run-IsExclusive ops _ (drop_reservation-IsExclusive s i v)

-- In every history of reservations and drops, in any order, at most one reservation of an identity is
-- alive, and the map holds its owner, and nothing if there is none.
pub run-new-IsExclusive : (ops : List Op) → IsExclusive (run new ops)
unfolding new
run-new-IsExclusive ops =
    run-IsExclusive ops new record { owned = λ key. refl; single = λ key. omega arith }
