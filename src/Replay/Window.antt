-- ===== src/Replay/Window.antt =====
-- The window of crates/udp2raw-ng-core/src/replay.rs, bit by bit: `set`, the loops of `shift_left`
-- and `clear_unused_tail`, and the bounds of every index.
use Prim.Native.Nat.{bit_and, bit_or}
use udp2raw_ng.Prelude.{
  ℕ, zero, suc, ◌+◌, ◌-◌, ◌*◌, ◌/◌, ◌%◌, ◌^◌, ◌≤◌, ◌<◌, ◌≡◌, refl, inl, inr, true, false, not, ◌&&◌,
  arith, ltb, leb, ◌==◌, if◌then◌else◌, length, get_or, set as set_at, replicate, length-set,
  get_or-set_self, get_or-set_ne, length-replicate, Bool-cases, ==_iff, List,
}
use native.Mathlib.Nat.{pow-le-pow_right}
use udp2raw_ng.Prelude.Bits.{
  bit, bit-le-one, bit-zero, bit-bit_and, bit-bit_or, bit-pow, bit-complement, bit-mask,
  bit_and-pow, pow_pos,
}
use udp2raw_ng.Replay.{
  ReplayWindow, word_at, put_word, get, set, clear, move, move_loop, clear_loop, clear_unused_tail,
  shift_left,
}

-- A vector of `width.div_ceil(64)` words.
pub record IsSized (w : ReplayWindow) : Type 0 where
  pub positive : 0 < w.width
  pub sized : length w.words ≡ (w.width + 63) / 64

-- The bit that stands for `index`.
abbrev flag : List ℕ → ℕ → ℕ
flag words index = bit (get_or words (index / 64) 0) (index % 64)

get-flag : (w : ReplayWindow) (i : ℕ) → get w i ≡ not (flag w.words i == 0)
unfolding get
get-flag w i = ground (
  arith,
  bit_and-pow (word_at w i) (i % 64),
  bit-le-one (word_at w i) (i % 64),
  pow_pos (i % 64),
  one_or_none (flag w.words i) (2 ^ (i % 64)),
)
  where
    one_or_none : (b p : ℕ) → b ≤ 1 → 0 < p → (b * p == 0) ≡ (b == 0)
    one_or_none b p h k = grind arith

-- A write of one word, seen at every bit.
flag-set_at :
    (words : List ℕ) (k j v : ℕ)
    → k < length words
    → flag (set_at words k v) j ≡ (if k == j / 64 then bit v (j % 64) else flag words j)
flag-set_at words k j v h = elim (Bool-cases (k == j / 64)) [
  | inl e ↦
      let same : k ≡ j / 64 = (==_iff _ _).0 e in rw (e, ← same, get_or-set_self words k v 0 h)
  | inr e ↦ rw (e, get_or-set_ne words k (j / 64) v 0 (ground arith))
]

shifted_fits : (k : ℕ) → k < 64 → 2 ^ k < 2 ^ 64
shifted_fits k h =
    let order : k ≤ 63 = omega arith in
    let below : 2 ^ k ≤ 2 ^ 63 = pow-le-pow_right (omega arith) order in omega arith

module _ (w : ReplayWindow) (i j : ℕ) (h : i / 64 < length w.words) where
  pub get-set : get (set w i) j ≡ (if i == j then true else get w j)
  unfolding set
  get-set =
      let v = bit_or (word_at w i) (2 ^ (i % 64)) in
      ground (
        arith,
        get-flag (put_word w i v) j,
        get-flag w j,
        flag-set_at w.words (i / 64) j v h,
        bit-bit_or (word_at w i) (2 ^ (i % 64)) (j % 64),
        bit-pow (i % 64) (j % 64),
        bit-le-one (word_at w i) (j % 64),
        bit-le-one (word_at w j) (j % 64),
      )

  pub get-clear : get (clear w i) j ≡ (if i == j then false else get w j)
  unfolding clear
  get-clear =
      let mask = 2 ^ 64 - 1 - 2 ^ (i % 64) in
      let v = bit_and (word_at w i) mask in
      ground (
        arith,
        get-flag (put_word w i v) j,
        get-flag w j,
        flag-set_at w.words (i / 64) j v h,
        bit-bit_and (word_at w i) mask (j % 64),
        bit-complement 64 (2 ^ (i % 64)) (j % 64) (shifted_fits (i % 64) (omega arith))
            (omega arith),
        bit-pow (i % 64) (j % 64),
        bit-le-one (word_at w i) (j % 64),
        bit-le-one (word_at w j) (j % 64),
      )

-- Neither the width nor the number of words changes.
abbrev pub SameShape : ReplayWindow → ReplayWindow → Type 0
SameShape v w = (v.width ≡ w.width) × (length v.words ≡ length w.words)

pub set-SameShape : (w : ReplayWindow) (i : ℕ) → SameShape (set w i) w
unfolding set
set-SameShape w i = (refl, length-set w.words (i / 64) _)

clear-SameShape : (w : ReplayWindow) (i : ℕ) → SameShape (clear w i) w
unfolding clear
clear-SameShape w i = (refl, length-set w.words (i / 64) _)

move-SameShape : (w : ReplayWindow) (a i : ℕ) → SameShape (move w a i) w
unfolding move
move-SameShape w a i = elim (Bool-cases (get w (i - a))) [
  | inl e ↦ rw (e, move) (set-SameShape w i)
  | inr e ↦ rw (e, move) (clear-SameShape w i)
]

get-move :
    (w : ReplayWindow) (a i j : ℕ)
    → i / 64 < length w.words
    → get (move w a i) j ≡ (if i == j then get w (i - a) else get w j)
unfolding move
get-move w a i j h = elim (Bool-cases (get w (i - a))) [
  | inl e ↦ rw (e, move) (get-set w i j h)
  | inr e ↦ rw (e, move) (get-clear w i j h)
]

move_loop-SameShape : (w : ReplayWindow) (a n : ℕ) → SameShape (move_loop w a n) w
unfolding move_loop
move_loop-SameShape w a zero = (refl, refl)
move_loop-SameShape w a (suc n) =
    ground (arith, move_loop-SameShape (move w a (a + n)) a n, move-SameShape w a (a + n))

-- The first loop, run on `n` indices from the top down, reads each bit before it is written.
get-move_loop :
    (w : ReplayWindow) (a n j : ℕ)
    → a + n ≤ 64 * length w.words
    → get (move_loop w a n) j ≡ (if leb a j && ltb j (a + n) then get w (j - a) else get w j)
unfolding move_loop
get-move_loop w a zero j h = ground arith
get-move_loop w a (suc n) j h = ground (
  arith,
  get-move_loop (move w a (a + n)) a n j,
  move-SameShape w a (a + n),
  get-move w a (a + n) j (omega arith),
  get-move w a (a + n) (j - a) (omega arith),
)

clear_loop-SameShape : (w : ReplayWindow) (i n : ℕ) → SameShape (clear_loop w i n) w
unfolding clear_loop
clear_loop-SameShape w i zero = (refl, refl)
clear_loop-SameShape w i (suc n) =
    ground (arith, clear_loop-SameShape (clear w i) (suc i) n, clear-SameShape w i)

get-clear_loop :
    (w : ReplayWindow) (i n j : ℕ)
    → i + n ≤ 64 * length w.words
    → get (clear_loop w i n) j ≡ (if leb i j && ltb j (i + n) then false else get w j)
unfolding clear_loop
get-clear_loop w i zero j h = ground arith
get-clear_loop w i (suc n) j h = ground (
  arith,
  get-clear_loop (clear w i) (suc i) n j,
  clear-SameShape w i,
  get-clear w i j (omega arith),
)

abbrev masked : ReplayWindow → ℕ → ReplayWindow
masked w v = record w { words = set_at w.words (length w.words - 1) v }

abbrev tail_word : ReplayWindow → ℕ
tail_word w = bit_and (get_or w.words (length w.words - 1) 0) (2 ^ (w.width % 64) - 1)

clear_unused_tail-SameShape : (w : ReplayWindow) → SameShape (clear_unused_tail w) w
unfolding clear_unused_tail
clear_unused_tail-SameShape w =
    ground (arith, length-set w.words (length w.words - 1) (tail_word w))

get-clear_unused_tail :
    (w : ReplayWindow) (j : ℕ) → IsSized w → j < w.width → get (clear_unused_tail w) j ≡ get w j
unfolding clear_unused_tail
get-clear_unused_tail w j s h = ground (
  arith,
  get-flag (masked w (tail_word w)) j,
  get-flag w j,
  flag-set_at w.words (length w.words - 1) j (tail_word w) (omega (arith, s.sized)),
  bit-bit_and (get_or w.words (length w.words - 1) 0) (2 ^ (w.width % 64) - 1) (j % 64),
  bit-mask (w.width % 64) (j % 64),
  bit-le-one (get_or w.words (length w.words - 1) 0) (j % 64),
)

-- The vector of zeros that a shift past the width leaves.
pub get-zeros : (w : ReplayWindow) (n j : ℕ) → get (record w { words = replicate n 0 }) j ≡ false
get-zeros w n j = ground (
  arith,
  get-flag (record w { words = replicate n 0 }) j,
  get_or-replicate n (j / 64),
  bit-zero (j % 64),
)
  where
    get_or-replicate : (n i : ℕ) → ◌≡◌ {A = ℕ} (get_or (replicate n 0) i 0) 0
    get_or-replicate zero i = refl
    get_or-replicate (suc n) zero = refl
    get_or-replicate (suc n) (suc i) = get_or-replicate n i

pub shift_left-SameShape : (w : ReplayWindow) (a : ℕ) → SameShape (shift_left w a) w
unfolding shift_left
shift_left-SameShape w a =
    let moved = move_loop w a (w.width - a) in
    ground (
      arith,
      length-replicate {A = ℕ} (length w.words) 0,
      move_loop-SameShape w a (w.width - a),
      clear_loop-SameShape moved 0 a,
      clear_unused_tail-SameShape (clear_loop moved 0 a),
    )

-- The bit of every index below the width, after `shift_left`.
pub get-shift_left :
    (w : ReplayWindow) (a j : ℕ)
    → IsSized w
    → j < w.width
    → get (shift_left w a) j ≡ (if ltb j a then false else get w (j - a))
unfolding shift_left
get-shift_left w a j s h = elim (Bool-cases (leb w.width a)) [
  | inl e ↦ rw e (ground (arith, get-zeros w (length w.words) j))
  | inr e ↦ rw e (shifted (ground arith))
]
  where
    shifted :
        a < w.width
        → get (clear_unused_tail (clear_loop (move_loop w a (w.width - a)) 0 a)) j
          ≡ (if ltb j a then false else get w (j - a))
    shifted lt =
        let moved = move_loop w a (w.width - a) in
        let shape = move_loop-SameShape w a (w.width - a) in
        let shape' = clear_loop-SameShape moved 0 a in
        let sized : IsSized (clear_loop moved 0 a) = record {
          positive = omega (arith, s.positive, shape, shape');
          sized = ground (arith, shape, shape', s.sized);
        } in
        ground (
          arith,
          get-clear_unused_tail (clear_loop moved 0 a) j sized,
          get-clear_loop moved 0 a j (omega (arith, s.sized, shape)),
          get-move_loop w a (w.width - a) j (omega (arith, s.sized)),
        )
