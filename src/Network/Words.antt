-- ===== src/Network/Words.antt =====
-- Words that are joined by commas come back from the two fields.
use pair_admin.Base.{
  ℕ, ◌≡◌, refl, Bool, true, false, not, List, [], ◌∷◌, ◌++◌, Text, codes, arith, any, nat_eq,
  is_space, is_truthy, trim, trim_start, trim_end, join, All, any-append, ap, ◌∙◌, if◌then◌else◌,
}
use pair_admin.Network.{
  before_dash, trim_before_dashes, trim_behind_dashes, normalize_dashes, is_separator, flush,
  words_from, words, parse_targets,
}

abbrev HasNoSpace : Text → Type 0
HasNoSpace s = any is_space s ≡ false

-- A word: not empty, without white space and without a comma.
abbrev pub IsWord : Text → Type 0
IsWord w = (is_truthy w ≡ true) × (any is_separator w ≡ false)

before_dash-cons : (c : ℕ) (s : Text) → is_space c ≡ false → before_dash c s ≡ c ∷ s
before_dash-cons c [] h = refl
before_dash-cons c (d ∷ s) h = rw h refl

trim_before_dashes-id : (s : Text) → HasNoSpace s → trim_before_dashes s ≡ s
unfolding trim_before_dashes
trim_before_dashes-id [] h = refl
trim_before_dashes-id (c ∷ s) h =
    rw (trim_before_dashes-id s (ground arith)) (before_dash-cons c s (ground arith))

trim_behind_dashes-id : (b : Bool) (s : Text) → HasNoSpace s → trim_behind_dashes b s ≡ s
unfolding trim_behind_dashes
trim_behind_dashes-id b [] h = refl
trim_behind_dashes-id b (c ∷ s) h = ground (arith, trim_behind_dashes-id (nat_eq c b'-') s)

pub normalize_dashes-id : (s : Text) → HasNoSpace s → normalize_dashes s ≡ s
unfolding normalize_dashes
normalize_dashes-id s h = rw (trim_before_dashes-id s h) (trim_behind_dashes-id false s h)

trim_start-id : (s : Text) → HasNoSpace s → trim_start s ≡ s
unfolding trim_start
trim_start-id [] h = refl
trim_start-id (c ∷ s) h = ground arith

trim_end-id : (s : Text) → HasNoSpace s → trim_end s ≡ s
unfolding trim_end
trim_end-id [] h = refl
trim_end-id (c ∷ []) h = ground arith
trim_end-id (c ∷ d ∷ s) h = rw (trim_end-id (d ∷ s) (ground arith)) refl

trim-id : (s : Text) → HasNoSpace s → trim s ≡ s
unfolding trim
trim-id s h = rw (trim_start-id s h) (trim_end-id s h)

words_from-comma :
    (w s : Text) → any is_separator w ≡ false → words_from (w ++ b',' ∷ s) ≡ (w, words s)
unfolding words_from words is_space
words_from-comma [] s h = refl
words_from-comma (c ∷ w) s h =
    let plain : is_separator c ≡ false = ground arith in
    rw (plain, words_from-comma w s (ground arith)) refl

words_from-word : (w : Text) → any is_separator w ≡ false → words_from w ≡ (w, [])
unfolding words_from
words_from-word [] h = refl
words_from-word (c ∷ w) h =
    let plain : is_separator c ≡ false = ground arith in
    rw (plain, words_from-word w (ground arith)) refl

flush-word : (w : Text) (ws : List Text) → is_truthy w ≡ true → flush w ws ≡ w ∷ ws
flush-word [] ws h = absurd (ground arith)
flush-word (c ∷ w) ws h = refl

pub words-word : (w : Text) → IsWord w → words w ≡ w ∷ []
unfolding words
words-word w h = rw (words_from-word w h.1) (flush-word w [] h.0)

words-comma : (w s : Text) → IsWord w → words (w ++ b',' ∷ s) ≡ w ∷ words s
unfolding words
words-comma w s h =
    ap (λ (p : Text × List Text). flush p.0 p.1) (words_from-comma w s h.1)
    ∙ flush-word w (words s) h.0

pub words-join : (ws : List Text) → All IsWord ws → words (join (codes ",") ws) ≡ ws
unfolding words words_from join
words-join [] h = refl
words-join (w ∷ []) h = words-word w h.0
words-join (w ∷ v ∷ ws) h =
    words-comma w (join (codes ",") (v ∷ ws)) h.0 ∙ ap (w ∷◌) (words-join (v ∷ ws) h.1)

pub word-HasNoSpace : (w : Text) → any is_separator w ≡ false → HasNoSpace w
word-HasNoSpace [] h = refl
word-HasNoSpace (c ∷ w) h = ground (arith, word-HasNoSpace w)

pub join-HasNoSpace : (ws : List Text) → All IsWord ws → HasNoSpace (join (codes ",") ws)
unfolding join is_space
join-HasNoSpace [] h = refl
join-HasNoSpace (w ∷ []) h = word-HasNoSpace w h.0.1
join-HasNoSpace (w ∷ v ∷ ws) h = ground (
  arith,
  any-append is_space w (b',' ∷ join (codes ",") (v ∷ ws)),
  word-HasNoSpace w h.0.1,
  join-HasNoSpace (v ∷ ws) h.1,
)

target-cases :
    (ws : List Text)
    → All IsWord ws
    → (if not (is_truthy (join (codes ",") ws)) then [] else ws) ≡ ws
unfolding join
target-cases [] h = refl
target-cases (w ∷ []) h = rw h.0.0 refl
target-cases ((c ∷ w) ∷ v ∷ ws) h = refl
target-cases ([] ∷ v ∷ ws) h = absurd (ground arith)

-- The targets field gives back every list of targets that is typed in with commas between them, the
-- empty list included: a target is any text that is not empty and has no white space and no comma in it.
pub parse_targets-join : (ws : List Text) → All IsWord ws → parse_targets (join (codes ",") ws) ≡ ws
unfolding parse_targets
parse_targets-join ws h =
    let plain = join-HasNoSpace ws h in
    rw
      (
        trim-id (join (codes ",") ws) plain,
        normalize_dashes-id (join (codes ",") ws) plain,
        words-join ws h,
      )
      (target-cases ws h)
