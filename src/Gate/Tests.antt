-- ===== src/Gate/Tests.antt =====
-- The gate at a start that needs a master password.
use pair_admin.Base.{◌≡◌, refl, true, false, some, List, [], ◌∷◌, codes, any}
use pair_admin.Gate.{
  initial, was_verified, needs_answered, has_answered, handle_submit, submit_answered, keys_loaded,
  load_and_proceed,
}
use pair_admin.Gate.Events.{
  Event, needs, has, types, submits, loaded, submitted, on_event, run, lets_through,
}
use pair_admin.Gate.Passed.{ready_lem}

abbrev history : List Event
history =
    needs (some true)
    ∷ has (some true)
    ∷ types (codes "wrong") []
    ∷ submits
    ∷ submitted (was_verified false)
    ∷ submits
    ∷ submitted (was_verified true)
    ∷ loaded
    ∷ []

ready_lem_example : any lets_through history ≡ true
unfolding run on_event needs_answered has_answered handle_submit submit_answered keys_loaded
    load_and_proceed
ready_lem_example = ready_lem history refl

test_wrong :
    (run
      (needs (some true) ∷ has (some true) ∷ types (codes "x") [] ∷ submits ∷ loaded ∷ [])
      initial).loads
    ≡ 0
unfolding run on_event needs_answered has_answered handle_submit
test_wrong = refl
