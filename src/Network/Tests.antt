-- ===== src/Network/Tests.antt =====
-- The fields of the Network panel; `Number` reads decimals only.
use pair_admin.Base.{
  ◌≡◌, refl, Option, some, List, [], ◌∷◌, Text, codes, map, join, All, ℤ, pos, show, digits_from,
  digits-show, is_space, arith, split, ap,
}
use pair_admin.Network.{
  parse_ports, normalize_dashes, trim_before_dashes, trim_behind_dashes, words, words_from,
  parse_tokens, parse_token,
}
use pair_admin.Network.Bounds.{IsPort, parse_ports-IsPort}
use pair_admin.Network.Lists.{ReadsDecimals, parse_ports-join}

abbrev integer_of : Text → Option ℤ
integer_of t = some (pos (digits_from 0 t))

reads : ReadsDecimals integer_of
reads n = ap (λ m. some (pos m)) (digits-show n)

abbrev targets : List Text
targets = codes "10.0.0.0/24" ∷ codes "192.168.5.1-192.168.5.9" ∷ []

parse_ports-IsPort_example : All IsPort (parse_ports integer_of (codes "0, 22 - 24 70000"))
parse_ports-IsPort_example = parse_ports-IsPort integer_of (codes "0, 22 - 24 70000")

parse_ports-join_example :
    parse_ports integer_of (join (codes ",") (map show (22 ∷ 2222 ∷ []))) ≡ 22 ∷ 2222 ∷ []
parse_ports-join_example =
    parse_ports-join integer_of reads (22 ∷ 2222 ∷ [])
      ((omega arith, omega arith), ((omega arith, omega arith), tt))

test_ports : parse_ports integer_of (codes " 22 - 24, 8080") ≡ 22 ∷ 23 ∷ 24 ∷ 8080 ∷ []
unfolding parse_ports normalize_dashes trim_before_dashes trim_behind_dashes words words_from
    parse_tokens parse_token is_space split
test_ports = refl
