-- ===== src/Preview/Tests.antt =====
-- The view of a tab, and a frame of two lines.
use pair_admin.Base.{
  ◌≡◌, refl, false, ◌==◌, List, [], ◌∷◌, ◌++◌, codes, any, trim_end, is_space, split, join,
  starts_with,
}
use pair_admin.Preview.{
  Preview, Event, pasted, output, observed, ticked, cleaned, run, formatted, actions, next,
  term_write,
}
use pair_admin.Preview.Disposed.{touches_terminal, cleaned_silent}

abbrev shell : Preview
shell = record { tab_id = codes "a"; disposed = false }

abbrev late : List Event
late = output (codes "a") (codes "bye") ∷ pasted (codes "rm") ∷ observed 80 24 ∷ ticked ∷ []

cleaned_silent_example : any touches_terminal (run (cleaned ∷ late) shell) ≡ false
cleaned_silent_example = cleaned_silent late shell

test_formatted :
    formatted (codes "one\ntwo\n") ≡ codes "one" ++ (27 ∷ codes "[K" ++ 13 ∷ 10 ∷ codes "two")
unfolding formatted trim_end is_space split join
test_formatted = refl

test_output :
    run (output (codes "b") (codes "x") ∷ output (codes "a") (codes "y") ∷ []) shell
    ≡ term_write (codes "y") ∷ []
unfolding run actions next ◌==◌ starts_with
test_output = refl
