-- ===== src/Entropy/Laws.antt =====
-- The identifiers drawn in crates/udp2raw-ng-core/src/id.rs.
use udp2raw_ng.Prelude.{ℕ, ◌^◌, ◌<◌, ◌≡◌, Option, none, some, List, [], ◌∷◌, length, ok, arith, All}
use mathlib.Core.Path.{subst}
use udp2raw_ng.Prelude.Bytes.{from_be, AreBytes, from_be-lt}
use udp2raw_ng.Entropy.{Entropy, generate_conversation}

-- What `getrandom` fills a buffer of `n` bytes with.
abbrev pub Fills : ℕ → Option (List ℕ) → Type 0
Fills n none = Unit {0}
Fills n (some bytes) = (length bytes ≡ n) × AreBytes bytes

-- A conversation identifier that is drawn from calls which fill four bytes or fail is a nonzero
-- 32-bit number.
pub generate_conversation_range :
    (entropy : Entropy) (id : ℕ)
    → All (Fills 4) entropy
    → (generate_conversation entropy).0 ≡ ok id
    → (0 < id) × (id < 2 ^ 32)
unfolding generate_conversation
generate_conversation_range [] id f e = cc
generate_conversation_range (none ∷ rest) id f e = cc
generate_conversation_range (some bytes ∷ rest) id f e = ground (
  arith,
  f.0,
  small bytes f.0.0 (from_be-lt bytes f.0.1),
  generate_conversation_range rest id f.1,
)
  where
    small :
        (bytes : List ℕ)
        → length bytes ≡ 4
        → from_be bytes < 256 ^ length bytes
        → from_be bytes < 2 ^ 32
    small bytes n h = subst (λ (k : ℕ). from_be bytes < 256 ^ k) n h
