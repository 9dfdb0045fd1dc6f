-- ===== src/Entropy/Examples.antt =====
-- Identifiers that are drawn from given bytes.
use udp2raw_ng.Prelude.{◌≡◌, refl, some, [], ◌∷◌, ok}
use udp2raw_ng.Prelude.Bytes.{from_be}
use udp2raw_ng.Entropy.{Entropy, generate_conversation}

-- Zero is drawn first.
abbrev draws : Entropy
draws = some (0 ∷ 0 ∷ 0 ∷ 0 ∷ []) ∷ some (0 ∷ 0 ∷ 1 ∷ 2 ∷ []) ∷ []

drawn : (generate_conversation draws).0 ≡ ok 258
unfolding generate_conversation from_be
drawn = refl
