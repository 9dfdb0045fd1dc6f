-- ===== src/Replay/Examples.antt =====
-- Runs of the replay filter, and its theorems at concrete windows.
use udp2raw_ng.Prelude.{ℕ, ◌+◌, ◌<◌, ◌≡◌, ◌↔◌, refl, false, none, some, [], ◌∷◌, ok, err, contains}
use udp2raw_ng.Errors.{duplicate, too_old}
use udp2raw_ng.Replay.{ReplayWindow, new, accept}
use udp2raw_ng.Replay.Refinement.{top, Represents, new-Represents}
use udp2raw_ng.Replay.Runs.{
  run, run_spec, run-run_spec, accept-ok_iff, accepted, accepted_once, Distinct,
}

abbrev fresh : ReplayWindow
fresh = record { width = 128; highest = none; words = 0 ∷ 0 ∷ [] }

fresh_lem : new 128 ≡ some fresh
unfolding new
fresh_lem = refl

fresh-Represents : Represents fresh []
fresh-Represents = new-Represents 128 fresh fresh_lem

-- The two tests of the source.
reordering : run fresh (10 ∷ 12 ∷ 11 ∷ 11 ∷ []) ≡ ok tt ∷ ok tt ∷ ok tt ∷ err duplicate ∷ []
unfolding run accept
reordering = refl

outside :
    run fresh (1 ∷ 200 ∷ 1 ∷ 73 ∷ 72 ∷ []) ≡ ok tt ∷ ok tt ∷ err too_old ∷ ok tt ∷ err too_old ∷ []
unfolding run accept
outside = refl

run-run_spec_example : run fresh (10 ∷ 12 ∷ 11 ∷ 11 ∷ []) ≡ run_spec 128 [] (10 ∷ 12 ∷ 11 ∷ 11 ∷ [])
run-run_spec_example = run-run_spec 128 fresh (10 ∷ 12 ∷ 11 ∷ 11 ∷ []) fresh_lem

accept-ok_iff_example :
    ((accept fresh 7).1 ≡ ok tt)
    ↔ (contains 7 [] ≡ false) × ((h : ℕ) → top [] ≡ some h → h < 7 + 128)
accept-ok_iff_example = accept-ok_iff fresh [] 7 fresh-Represents

accepted_once_example : Distinct (accepted fresh [] (10 ∷ 12 ∷ 10 ∷ []))
accepted_once_example = accepted_once 128 fresh (10 ∷ 12 ∷ 10 ∷ []) fresh_lem
