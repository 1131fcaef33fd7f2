-- ===== src/CopyMode/Shown.antt =====
-- What Copy Mode shows against what "Copy All" copies: the markup of
-- frontend/src/components/terminal/CopyModeDialog.tsx.
use pair_admin.Base.{
  ◌≡◌, Bool, true, false, ◌&&◌, ◌||◌, Option, none, some, List, [], ◌∷◌, ◌++◌, Text, codes,
  if◌then◌else◌, is_truthy, or_else, arith, ℤ, pos, negsuc, show, Widget, words, alert, button,
  text_area, Offered, areas, when, suc,
}
use pair_admin.Terminal.{TerminalState}
use pair_admin.CopyMode.{
  CopyModeState, CopyModeView, complete, filtered, is_filtered, copy_disabled, handle_copy_all,
  handle_refresh, run_filter,
}

pub data Action : Type 0 where
  show_view : CopyModeView → Action
  refresh copy_all close : Action

abbrev view_tabs : List (Widget Action)
view_tabs =
    button (codes "Complete buffer") false (show_view complete)
    ∷ button (codes "Filtered LLM buffer") false (show_view filtered)
    ∷ []

-- `filterError ?` is a test on a string or null.
abbrev error_shown : Option Text → Bool
error_shown none = false
error_shown (some message) = is_truthy message

abbrev line_count : ℤ → Text
line_count (pos n) = show n
line_count (negsuc n) = codes "-" ++ show (suc n)

abbrev filtered_panel : CopyModeState → List (Widget Action)
filtered_panel s =
    (if s.filtering
      then words (codes "Filtering…")
      else if error_shown s.filter_error
      then alert (or_else s.filter_error [])
      else text_area (codes "Filtered LLM buffer (copy mode)") (or_else s.filtered_text []))
    ∷ words (codes "Exactly what the model would receive: the last ")
    ∷ words (line_count s.context_lines)
    ∷ words (codes " lines of this terminal, with credentials and ANSI control sequences removed.")
    ∷ []

abbrev pub panel : CopyModeView → CopyModeState → List (Widget Action)
panel complete s = text_area (codes "Terminal output (copy mode)") s.snapshot ∷ []
panel filtered s = filtered_panel s

abbrev tip_and_buttons : CopyModeState → List (Widget Action)
tip_and_buttons s =
    words (codes "Tip: hold Shift while dragging in the terminal to select text")
    ∷ button (codes "Refresh") false refresh
    ∷ button (if s.copied then codes "Copied!" else codes "Copy All") (copy_disabled s) copy_all
    ∷ button (codes "Close") false close
    ∷ []

unfoldable pub view : CopyModeState → List (Widget Action)
view s = when s.opened (view_tabs ++ (panel s.view s ++ tip_and_buttons s))

-- While the dialog is open, is not filtering and shows no error: what "Copy All" copies is the one text
-- on display, in either view.
pub copies_shown :
    (s : CopyModeState) (t : Text)
    → s.opened ≡ true
    → (is_filtered s.view && (s.filtering || error_shown s.filter_error)) ≡ false
    → handle_copy_all s ≡ some t
    → areas (view s) ≡ t ∷ []
unfolding view handle_copy_all
copies_shown s t o h c = ground arith

-- Refresh of the filtered view takes the text off the display, but not out of reach: until the answer is
-- there, "Copy All" is enabled and copies the text from before, which is on display no more.
pub refresh_copies_hidden :
    {Term : Type 0} (lines_of : Term → Option (List (Option Text))) (ts : TerminalState Term)
    (s : CopyModeState) (t : Text)
    → s.opened ≡ true
    → is_filtered s.view ≡ true
    → s.filtered_text ≡ some t
    → let s' = (handle_refresh lines_of ts s).0 in
      (areas (view s') ≡ []) × Offered copy_all (view s') × (handle_copy_all s' ≡ some t)
unfolding view handle_copy_all handle_refresh run_filter
refresh_copies_hidden lines_of ts s t o f h = ground arith
