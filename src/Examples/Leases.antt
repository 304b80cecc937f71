-- ===== src/Examples/Leases.antt =====
-- Profile leases at work (src/profile_activity.rs).
use cocoa_way.Base.{true, List, [], ◌∷◌}
use cocoa_way.Profiles as profiles
use cocoa_way.Profiles.Identities as names

abbrev activities : List profiles.Op
activities =
    profiles.op_begin 3
    ∷ profiles.op_begin 3
    ∷ profiles.op_end 3
    ∷ profiles.op_begin 4
    ∷ profiles.op_end 4
    ∷ []

abbrev reservations : List names.Op
reservations =
    names.op_reserve true record { key = 5; id = 1; generation = 0 }
    ∷ names.op_reserve true record { key = 5; id = 2; generation = 0 }
    ∷ names.op_drop 0
    ∷ names.op_reserve true record { key = 5; id = 2; generation = 1 }
    ∷ []

run-new-IsExclusive_example : names.IsExclusive (names.run names.new reservations)
run-new-IsExclusive_example = names.run-new-IsExclusive reservations
