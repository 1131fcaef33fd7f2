-- ===== src/Sidebar/Display.antt =====
-- What the sidebar shows against what it does: a drop, a click on a card, and a new name.
use mathlib.Core.Option
use pair_admin.Base.{
  ◌≡◌, ◌≢◌, refl, Bool, true, false, not, some, List, [], ◌∷◌, ◌++◌, Text, arith, filter, find,
  is_truthy, if◌then◌else◌, codes, trim, ◌==◌, find-modify_first, ap, ◌∙◌,
}
use pair_admin.Command.{
  Command, CommandState, has_id, consume_command_text, reorder_pinned, rename_command, name_of,
}
use pair_admin.Command.Reorder.{reorder_pinned_lem, others}
use pair_admin.Sidebar.{
  pinned_commands, on_drop, handle_execute, handle_copy, full_command_text, display_text,
  rename_answered, rename_key_down, rename_save, save_rename,
}

filter-append :
    (p : Command → Bool) (xs ys : List Command) → filter p (xs ++ ys) ≡ filter p xs ++ filter p ys
filter-append p [] ys = refl
filter-append p (x ∷ xs) ys = ground (arith, filter-append p xs ys)

filter_comm :
    (p q : Command → Bool) (xs : List Command) → filter p (filter q xs) ≡ filter q (filter p xs)
filter_comm p q [] = refl
filter_comm p q (x ∷ xs) = ground (arith, filter_comm p q xs)

-- A pinned card dropped onto another pinned card stands immediately before it in the list of the pinned
-- cards, and the other pinned cards keep their order, wherever the unpinned commands stand between them
-- in the store.
pub on_drop-pinned_commands :
    (dragged target : Text) (s : CommandState) (moved t : Command)
    → dragged ≢ target
    → is_truthy dragged ≡ true
    → find (has_id dragged) s.commands ≡ some moved
    → find (has_id target) s.commands ≡ some t
    → moved.pinned ≡ true
    → t.pinned ≡ true
    → let cs = pinned_commands (on_drop target (some dragged) s).1 in
      (pre post : List Command) × (cs ≡ pre ++ moved ∷ t ∷ post)
      × (others dragged cs ≡ others dragged (pinned_commands s))
unfolding on_drop pinned_commands
on_drop-pinned_commands dragged target s moved t ne truthy hd ht pm pt =
    let (pre, post, e, same) = reorder_pinned_lem dragged target s moved t ne hd ht in
    let pinned = λ (c : Command). c.pinned in
    (
      filter pinned pre,
      filter pinned post,
      rw (truthy, e, filter-append pinned pre (moved ∷ t ∷ post), pm, pt) refl,
      rw truthy (
          filter_comm (λ c. not (has_id dragged c)) pinned
            (reorder_pinned dragged target s).commands
          ∙ ap (filter pinned) same
          ∙ filter_comm pinned (λ c. not (has_id dragged c)) s.commands),
    )

-- A click on Execute writes to the active terminal the text of the card's tooltip and the line end that
-- runs it, a click on Copy the text alone; the name of a card is never sent.
pub handle_execute-full_command_text :
    (active id : Text) (s : CommandState) (c : Command)
    → find (has_id id) s.commands ≡ some c
    → ((handle_execute active id s).1
        ≡ record { tab_id = active; input = full_command_text c ++ 13 ∷ [] })
      × ((handle_copy active id s).1 ≡ record { tab_id = active; input = full_command_text c })
unfolding handle_execute handle_copy consume_command_text
handle_execute-full_command_text active id s c h =
    (rw (h, consume_command_text, ◌++◌) refl, rw (h, consume_command_text) refl)

display_text-renamed :
    (c : Command) (name : Text)
    → display_text (record c { name = name_of (some name) })
      ≡ (if is_truthy name then name else full_command_text c)
display_text-renamed c [] = refl
display_text-renamed c (x ∷ xs) = refl

-- The key Enter in the rename dialog closes it. The card then shows the name that was typed, without the
-- blanks around it, or its text if nothing else was typed; the text that is sent is as it was.
pub rename_shown :
    (id typed : Text) (s : CommandState) (c : Command)
    → find (has_id id) s.commands ≡ some c
    → let (still_open, s') = rename_answered id (rename_key_down (codes "Enter") typed) s in
      (still_open ≡ false)
      × (d : Command) × (find (has_id id) s'.commands ≡ some d)
      × (display_text d ≡ (if is_truthy (trim typed) then trim typed else full_command_text c))
      × (full_command_text d ≡ full_command_text c)
unfolding rename_answered rename_key_down rename_save save_rename rename_command ◌==◌
rename_shown id typed s c h =
    let named : Command → Command = λ x. record x { name = name_of (some (trim typed)) } in
    let found =
      find-modify_first (has_id id) named s.commands (λ x. refl) ∙ ap (Option.map named) h in
    (refl, named c, found, display_text-renamed c (trim typed), refl)
