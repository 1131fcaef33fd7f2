-- ===== src/Config/Typed.antt =====
-- Every configuration that the tabs store is one of the declared type.
use mathlib.Core.Option
use pair_admin.Base.{
  ℕ, ◌≡◌, refl, sym, ap, ◌∙◌, inl, inr, Option, none, some, List, [], ◌∷◌, Text, ◌==◌, eq_iff,
  nat_eq, Bool-cases, Option-cases, All, subst,
}
use pair_admin.Config.{
  ConfigValue, Config, Partial, property, merged, value_or, SyncWorld, SyncStep, get_settings,
  save_settings, write_back, sync_step, sync_steps,
}
use pair_admin.Config.Types.{
  field_type, type_of, TabSave, tab_partial, prompts, appearance, terminals, hotkeys, llm,
  llm_disabled,
}

-- Whatever property has a value is a field of `AppConfig`, and the value has its type.
abbrev pub IsTyped : Config → Type 0
IsTyped cfg = (key : Text) (v : ConfigValue) → cfg key ≡ some v → field_type key ≡ some (type_of v)

abbrev IsTypedPartial : Partial → Type 0
IsTypedPartial p = All (λ (e : Text × ConfigValue). field_type e.0 ≡ some (type_of e.1)) p

property-IsTyped :
    (key : Text) (v : ConfigValue) (p : Partial)
    → IsTypedPartial p
    → property key p ≡ some v
    → field_type key ≡ some (type_of v)
property-IsTyped key v [] h e = cc
property-IsTyped key v ((k, u) ∷ p) (hk, h) e = elim (Bool-cases (k == key)) [
  | inl same ↦
      let found : some u ≡ some v = rw (same, property) at e in
      ap field_type (sym ((eq_iff k key).0 same)) ∙ hk ∙ ap (Option.map type_of) found
  | inr other ↦ property-IsTyped key v p h (rw (other, property) at e)
]

tab_partial-IsTypedPartial : (save : TabSave) → IsTypedPartial (tab_partial save)
unfolding tab_partial field_type ◌==◌ pair_admin.Config.Terminals.to_save
    pair_admin.Config.Hotkeys.to_save
tab_partial-IsTypedPartial (prompts p) = (refl, tt)
tab_partial-IsTypedPartial (appearance theme size) = (refl, (refl, tt))
tab_partial-IsTypedPartial (terminals t) =
    (refl, (refl, (refl, (refl, (refl, (refl, (refl, tt)))))))
tab_partial-IsTypedPartial (hotkeys t) = (refl, (refl, (refl, (refl, (refl, (refl, (refl, tt)))))))
tab_partial-IsTypedPartial (llm t) = (refl, (refl, (refl, (refl, tt))))
tab_partial-IsTypedPartial llm_disabled = (refl, tt)

merged-IsTyped :
    (p : Partial) (cfg : Config) → IsTypedPartial p → IsTyped cfg → IsTyped (merged p cfg)
unfolding merged
merged-IsTyped p cfg hp hc key v e = elim (Option-cases (property key p)) [
  | inl none_there ↦ hc key v (rw (none_there, value_or) at e)
  | inr (u, there) ↦ property-IsTyped key v p hp (there ∙ (rw (there, value_or) at e))
]

-- A step of a save that a tab makes.
pub data TabStep : Type 0 where
  reads : (i : ℕ) → TabStep
  writes : (i : ℕ) → TabSave → TabStep

abbrev sync_of : TabStep → SyncStep
sync_of (reads i) = get_settings i
sync_of (writes i save) = save_settings i (tab_partial save)

abbrev pub sync_all : List TabStep → List SyncStep
sync_all [] = []
sync_all (t ∷ ts) = sync_of t ∷ sync_all ts

abbrev IsTypedRead : Option Config → Type 0
IsTypedRead none = Unit
IsTypedRead (some cfg) = IsTyped cfg

record IsTypedWorld (w : SyncWorld) : Type 0 where
  stored : IsTyped w.stored
  current : (i : ℕ) → IsTypedRead (w.current i)

read-typed : (i : ℕ) (w : SyncWorld) → IsTypedWorld w → IsTypedWorld (sync_step (get_settings i) w)
unfolding sync_step
read-typed i w h = record {
  stored = h.stored;
  current = λ j. elim (Bool-cases (nat_eq i j)) [
    | inl same ↦ rw same h.stored
    | inr other ↦ rw other (h.current j)
  ];
}

write_back-typed :
    (read : Option Config) (p : Partial) (w : SyncWorld)
    → IsTypedPartial p
    → IsTypedRead read
    → IsTypedWorld w
    → IsTypedWorld (write_back read p w)
write_back-typed none p w hp hr h = h
write_back-typed (some cfg) p w hp hr h = record {
  stored = merged-IsTyped p cfg hp hr;
  current = h.current;
}

write-typed :
    (i : ℕ) (save : TabSave) (w : SyncWorld)
    → IsTypedWorld w
    → IsTypedWorld (sync_step (save_settings i (tab_partial save)) w)
unfolding sync_step
write-typed i save w h =
    write_back-typed (w.current i) (tab_partial save) w (tab_partial-IsTypedPartial save)
      (h.current i) h

sync_all-typed :
    (ts : List TabStep) (w : SyncWorld) → IsTypedWorld w → IsTypedWorld (sync_steps (sync_all ts) w)
unfolding sync_steps
sync_all-typed [] w h = h
sync_all-typed (reads i ∷ ts) w h =
    sync_all-typed ts (sync_step (get_settings i) w) (read-typed i w h)
sync_all-typed (writes i save ∷ ts) w h =
    sync_all-typed ts (sync_step (save_settings i (tab_partial save)) w) (write-typed i save w h)

-- However the saves of all settings tabs overlap: if the stored configuration has only fields that
-- `AppConfig` declares, with values of their declared types, and no save had begun, it is so at the end too.
pub saves-IsTyped :
    (ts : List TabStep) (w : SyncWorld)
    → IsTyped w.stored
    → ((i : ℕ) → w.current i ≡ none)
    → IsTyped (sync_steps (sync_all ts) w).stored
saves-IsTyped ts w h none_yet =
    (sync_all-typed ts w
      (record { stored = h; current = λ i. subst IsTypedRead (sym (none_yet i)) tt })).stored
