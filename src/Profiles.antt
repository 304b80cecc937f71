-- ===== src/Profiles.antt =====
-- Activity and identity leases of profiles (src/profile_activity.rs). Profile ids, and pairs of a
-- runtime's key and a container's name, are numbers; a map is a function to an option. `leases` and
-- `reserved` are the guards that are alive.
pub mod Identities
use cocoa_way.Base.{
  ℕ, zero, suc, ◌+◌, ◌-◌, ◌≤◌, ◌≡◌, ◌≢◌, refl, sym, ap, ◌∙◌, inl, inr, ◌⊎◌, Bool, true, false, not,
  ◌&&◌, Option, none, some, List, [], ◌∷◌, ◌==◌, if◌then◌else◌, is_some, arith, Bool-cases, update,
  nat_of, Option-cases,
}

pub record Activity : Type 0 where
  pub operations : ℕ → Option ℕ
  pub leases : ℕ → ℕ

unfoldable pub new : Activity
new = record { operations = λ _. none; leases = λ _. 0 }

-- `entry(id).or_default()`
abbrev pub or_default : Option ℕ → ℕ
or_default none = 0
or_default (some n) = n

-- `ProfileActivity::begin`, of a saved profile.
unfoldable pub begin : Activity → ℕ → Activity
begin a id = record {
  operations = update a.operations id (some (or_default (a.operations id) + 1));
  leases = update a.leases id (a.leases id + 1);
}

-- The decrement of a count, with the removal at 0.
abbrev pub one_less : Option ℕ → Option ℕ
one_less none = none
one_less (some count) = if count - 1 == 0 then none else some (count - 1)

-- `drop` of an activity, if one of the profile is alive.
unfoldable pub end_activity : Activity → ℕ → Activity
end_activity a id = if a.leases id == 0 then a else record {
  operations = update a.operations id (one_less (a.operations id));
  leases = update a.leases id (a.leases id - 1);
}

-- `while_inactive`: the operation runs under the lock, or is refused.
unfoldable pub while_inactive {ℓ} : {T : Type ℓ} → Activity → ℕ → T → Option T
while_inactive a id result = if not (or_default (a.operations id) == 0) then none else some result

pub data Op : Type 0 where
  op_begin op_end : ℕ → Op

unfoldable pub step : Activity → Op → Activity
step a (op_begin id) = begin a id
step a (op_end id) = end_activity a id

unfoldable pub run : Activity → List Op → Activity
run a [] = a
run a (op ∷ ops) = run (step a op) ops

-- The map holds the live activities of each profile, and no zero.
abbrev counted : ℕ → Option ℕ
counted n = if n == 0 then none else some n

step-counted :
    (a : Activity) (op : Op) (id : ℕ)
    → ((j : ℕ) → a.operations j ≡ counted (a.leases j))
    → (step a op).operations id ≡ counted ((step a op).leases id)
unfolding step begin end_activity
step-counted a (op_begin j) id same = ground (arith, same j, same id)
step-counted a (op_end j) id same = ground (arith, same j, same id)

run-counted :
    (ops : List Op) (a : Activity)
    → ((j : ℕ) → a.operations j ≡ counted (a.leases j))
    → (id : ℕ) → (run a ops).operations id ≡ counted ((run a ops).leases id)
unfolding run
run-counted [] a same id = same id
run-counted (op ∷ ops) a same id = run-counted ops (step a op) (λ j. step-counted a op j same) id

-- In every history of activities the configuration of a profile is edited exactly when no activity
-- of the profile is alive.
pub run-new-while_inactive {ℓ} :
    {T : Type ℓ} (ops : List Op) (id : ℕ) (result : T)
    → while_inactive (run new ops) id result
      ≡ (if (run new ops).leases id == 0 then some result else none)
unfolding new while_inactive
run-new-while_inactive ops id result =
    let same = run-counted ops new (λ j. refl) id in ground (arith, ap or_default same)
