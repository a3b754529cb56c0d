-- ===== src/Examples/Objects.antt =====
-- The object registry at concrete inputs: two slots, references that are numbers.
use cv_video_analysis.Common.{ℕ, ◌≡◌, refl, Option, some, List, [], ◌∷◌, leb, if◌then◌else◌, arith}
use cv_video_analysis.Common.Texts.{codes, text_eq}
use cv_video_analysis.Common.Tables.{lookup, member}
use cv_video_analysis.Registry.{Registry, Descriptor, count}
use cv_video_analysis.Registry.Slots.{
  Call, reserve_call, release_call, register_call, free, slot, slot_after, run_call, run_calls,
  IsRegistry, run_calls-IsRegistry, run_call-slot,
}

abbrev new_registry : Registry ℕ
new_registry = record { entries = []; reservations = [] }

abbrev tensor : Descriptor
tensor = record { shape = some (8 ∷ 2 ∷ 2 ∷ 3 ∷ []) }

abbrev calls : List (Call ℕ)
calls =
    reserve_call (codes "a")
    ∷ register_call (codes "a") 7 tensor
    ∷ reserve_call (codes "b")
    ∷ reserve_call (codes "c")
    ∷ release_call (codes "a")
    ∷ []

new-IsRegistry : IsRegistry 2 new_registry
unfolding member
new-IsRegistry = record { table = tt; set = tt; disjoint = λ t e. refl; within = omega arith }

run_calls-IsRegistry_example : IsRegistry 2 (run_calls 2 calls new_registry)
run_calls-IsRegistry_example = run_calls-IsRegistry 2 calls new_registry new-IsRegistry

run_call-slot_example : slot (run_call 2 (reserve_call (codes "a")) new_registry) (codes "b") ≡ (
    if text_eq (codes "a") (codes "b")
    then slot_after
        (leb 2 (count new_registry))
        (reserve_call (codes "a"))
        (slot new_registry (codes "b"))
    else slot new_registry (codes "b"))
run_call-slot_example =
    run_call-slot 2 (reserve_call (codes "a")) new_registry (codes "b") new-IsRegistry

abbrev stored : Option ℕ
stored = some 7

all_free : slot new_registry (codes "a") ≡ free
unfolding lookup member
all_free = refl
