-- ===== src/View/Tests.antt =====
-- The chat at concrete states.
use pair_admin.Base.{◌≡◌, refl, none, some, [], codes, trim, trim_start, trim_end, is_space}
use pair_admin.Settings.{disabled, connected}
use pair_admin.View.{chat_send}

test_disabled : chat_send disabled (codes "hi") ≡ (codes "hi", none)
unfolding chat_send trim trim_start trim_end is_space
test_disabled = refl

test_send : chat_send connected (codes " hi ") ≡ ([], some (codes "hi"))
unfolding chat_send trim trim_start trim_end is_space
test_send = refl
