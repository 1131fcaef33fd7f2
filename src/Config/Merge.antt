-- ===== src/Config/Merge.antt =====
-- Saves of parts of the configuration, one after the other and at the same time.
use pair_admin.Base.{
  ℕ, ◌≡◌, refl, true, Option, List, [], ◌∷◌, Text, arith, nat_eq, ap, none, All, ◌∙◌,
}
use pair_admin.Config.{
  ConfigValue, Partial, property, value_or, merged, SyncWorld, get_settings, save_settings,
  sync_step, sync_steps, one_by_one,
}

-- What the last save that has the property gives it.
abbrev last_value : Text → List Partial → Option ConfigValue → Option ConfigValue
last_value key [] before = before
last_value key (p ∷ ps) before = last_value key ps (value_or (property key p) before)

save_once :
    (i : ℕ) (p : Partial) (w : SyncWorld)
    → sync_step (save_settings i p) (sync_step (get_settings i) w)
      ≡ record (sync_step (get_settings i) w) { stored = merged p w.stored }
unfolding sync_step
save_once i p w = let read : nat_eq i i ≡ true = ground arith in rw read refl

-- Saves that do not overlap keep each other's properties: each property has the value that the last
-- save with it gave it, and one that no save has stays as it was.
pub one_by_one-last_value :
    (key : Text) (i : ℕ) (ps : List Partial) (w : SyncWorld)
    → (sync_steps (one_by_one i ps) w).stored key ≡ last_value key ps (w.stored key)
unfolding sync_steps sync_step merged
one_by_one-last_value key i [] w = refl
one_by_one-last_value key i (p ∷ ps) w =
    ap (λ w'. (sync_steps (one_by_one i ps) w').stored key) (save_once i p w)
    ∙ one_by_one-last_value key i ps
        (record (sync_step (get_settings i) w) { stored = merged p w.stored })

-- Saves without the property leave it alone.
pub last_value-absent :
    (key : Text) (ps : List Partial) (before : Option ConfigValue)
    → All (λ p. property key p ≡ none) ps
    → last_value key ps before ≡ before
last_value-absent key [] before h = refl
last_value-absent key (p ∷ ps) before (hp, h) = rw hp (last_value-absent key ps before h)

-- Two saves that overlap: if the second reads before the first writes, nothing of the first is left.
pub lost_update :
    (p q : Partial) (w : SyncWorld)
    → (sync_steps
        (get_settings 0 ∷ get_settings 1 ∷ save_settings 0 p ∷ save_settings 1 q ∷ [])
        w).stored
      ≡ merged q w.stored
unfolding sync_steps sync_step
lost_update p q w = refl
