-- ===== src/Entropy.antt =====
-- The operating system's randomness and the identifiers drawn from it:
-- crates/udp2raw-ng-core/src/id.rs. The crate `getrandom` is not part of the repository; an
-- `Entropy` lists the answers of its calls in their order, `none` for a failure. A call past the
-- end of the list fails.
pub mod Laws
pub mod Examples
use udp2raw_ng.Prelude.{
  ℕ, Bool, true, false, Option, none, some, List, [], ◌∷◌, ◌==◌, ◌||◌, if◌then◌else◌, Result, ok,
  err,
}
use udp2raw_ng.Prelude.Bytes.{from_be}
use udp2raw_ng.Errors.{EngineError, randomness_unavailable}

abbrev pub Entropy : Type 0
Entropy = List (Option (List ℕ))

unfoldable pub getrandom : Entropy → Option (List ℕ) × Entropy
getrandom [] = (none, [])
getrandom (draw ∷ rest) = (draw, rest)

-- `ConversationId::generate`: draws until the number is not zero.
unfoldable pub generate_conversation : Entropy → Result EngineError ℕ × Entropy
generate_conversation [] = (err randomness_unavailable, [])
generate_conversation (none ∷ rest) = (err randomness_unavailable, rest)
generate_conversation (some bytes ∷ rest) =
    let again = generate_conversation rest in
    if from_be bytes == 0 then again else (ok (from_be bytes), rest)

-- `SessionId::generate`
unfoldable pub generate_session : Entropy → Result EngineError ℕ × Entropy
generate_session [] = (err randomness_unavailable, [])
generate_session (none ∷ rest) = (err randomness_unavailable, rest)
generate_session (some bytes ∷ rest) = (ok (from_be bytes), rest)
