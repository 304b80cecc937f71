-- ===== src/Producers.antt =====
-- The gate of the workers that produce resources (src/lifecycle_producers.rs). `leases` counts the
-- leases that are alive; the lock makes each call one step.
use cocoa_way.Base.{
  ℕ, zero, suc, ◌+◌, ◌-◌, ◌≤◌, ◌≡◌, refl, sym, subst, ap, ◌∙◌, inl, inr, ◌⊎◌, Bool, true, false,
  List, [], ◌∷◌, ◌++◌, if◌then◌else◌, arith,
}

pub record State : Type 0 where
  pub closing : Bool
  pub active : ℕ
  pub leases : ℕ

unfoldable pub new : State
new = record { closing = false; active = 0; leases = 0 }

-- Whether a lease is given is the second part.
unfoldable pub begin : State → State × Bool
begin s =
    if s.closing
    then (s, false)
    else (record s { active = s.active + 1; leases = s.leases + 1 }, true)

unfoldable pub close : State → State
close s = record s { closing = true }

-- `admit`: the message comes back, or it is sent under the lock.
unfoldable pub admit {ℓ κ} : {T : Type ℓ} {R : Type κ} → State → T → (T → R) → R ⊎ T
admit s message send = if s.closing then inr message else inl (send message)

-- `drop` of a lease, if one is alive.
unfoldable pub drop_lease : State → ℕ → State
drop_lease s zero = s
drop_lease s (suc leases) = record s { leases = leases; active = s.active - 1 }

pub data Op : Type 0 where
  op_begin op_close op_drop : Op

unfoldable pub step : State → Op → State
step s op_begin = (begin s).0
step s op_close = close s
step s op_drop = drop_lease s s.leases

unfoldable pub run : State → List Op → State
run s [] = s
run s (op ∷ ops) = run (step s op) ops

-- A closed gate gives no lease.
begin-closed : (s : State) → s.closing ≡ true → begin s ≡ (s, false)
unfolding begin
begin-closed s closed =
    ap
      (λ (c : Bool).
        if c then (s, false) else (record s { active = s.active + 1; leases = s.leases + 1 }, true))
      closed

begin-active : (s : State) → s.active ≡ s.leases → (begin s).0.active ≡ (begin s).0.leases
unfolding begin
begin-active s same = by_closing s.closing
  where
    by_closing :
        (c : Bool)
        → let out : State × Bool =
            if c
            then (s, false)
            else (record s { active = s.active + 1; leases = s.leases + 1 }, true) in
          out.0.active ≡ out.0.leases
    by_closing true = same
    by_closing false = omega arith

drop_lease-active :
    (s : State) (leases : ℕ)
    → s.leases ≡ leases
    → s.active ≡ s.leases
    → ((drop_lease s leases).active ≡ (drop_lease s leases).leases)
      × ((drop_lease s leases).active ≤ s.active)
      × ((drop_lease s leases).closing ≡ s.closing)
unfolding drop_lease
drop_lease-active s zero e same = (same, omega arith, refl)
drop_lease-active s (suc leases) e same = (omega arith, omega arith, refl)

step-active : (s : State) (op : Op) → s.active ≡ s.leases → (step s op).active ≡ (step s op).leases
unfolding step close
step-active s op_begin same = begin-active s same
step-active s op_close same = same
step-active s op_drop same = (drop_lease-active s s.leases refl same).0

run-active :
    (ops : List Op) (s : State) → s.active ≡ s.leases → (run s ops).active ≡ (run s ops).leases
unfolding run
run-active [] s same = same
run-active (op ∷ ops) s same = run-active ops (step s op) (step-active s op same)

run-closing :
    (ops : List Op) (s : State)
    → s.active ≡ s.leases
    → s.closing ≡ true
    → ((run s ops).active ≤ s.active) × ((run s ops).closing ≡ true)
unfolding run step close
run-closing [] s same closed = (omega arith, closed)
run-closing (op_begin ∷ ops) s same closed =
    subst (λ (s' : State). ((run s' ops).active ≤ s.active) × ((run s' ops).closing ≡ true))
      (sym (ap (λ (out : State × Bool). out.0) (begin-closed s closed)))
      (run-closing ops s same closed)
run-closing (op_close ∷ ops) s same closed = run-closing ops (close s) same refl
run-closing (op_drop ∷ ops) s same closed =
    let (same', le, kept) = drop_lease-active s s.leases refl same in
    let (fewer, last) = run-closing ops (drop_lease s s.leases) same' (kept ∙ closed) in
    (omega (arith, fewer, le), last)

run-append :
    (before after : List Op) (s : State) → run s (before ++ after) ≡ run (run s before) after
unfolding run
run-append [] after s = refl
run-append (op ∷ before) after s = run-append before after (step s op)

-- In every history the count of active producers is the number of live leases; and once the gate is
-- closed it only falls, whatever is still asked: a drained gate stays drained.
pub run-closed :
    (before after : List Op)
    → let s = run new before in
      let s' = run (close s) after in
      (s.active ≡ s.leases) × (s'.active ≡ s'.leases) × (s'.active ≤ s.active) × (s'.closing ≡ true)
unfolding new close
run-closed before after =
    let same = run-active before new refl in
    let s = run new before in
    let (fewer, closed) = run-closing after (close s) same refl in
    (same, run-active after (close s) same, fewer, closed)
