-- ===== src/Replay.antt =====
-- The sliding replay filter, crates/udp2raw-ng-core/src/replay.rs. A window is its width, the
-- highest packet number accepted and a vector of 64-bit words; bit `i` stands for the packet
-- number `highest - i`. `usize` has 64 bits, so `usize::try_from` of a `u64` never fails.
pub mod Window
pub mod Refinement
pub mod Runs
pub mod Later
pub mod Examples
use Prim.Native.Nat.{bit_and, bit_or}
use udp2raw_ng.Prelude.{
  ℕ, zero, suc, ◌+◌, ◌-◌, ◌/◌, ◌%◌, ◌^◌, Bool, not, Option, none, some, List, [], ltb, leb, ◌==◌,
  if◌then◌else◌, Result, ok, err, length, get_or, set as set_at, replicate,
}
use udp2raw_ng.Errors.{ReplayError, duplicate, too_old}

pub record ReplayWindow : Type 0 where
  pub width : ℕ
  pub highest : Option ℕ
  pub words : List ℕ

-- `none` is the failed assertion on a width of zero.
unfoldable pub new : ℕ → Option ReplayWindow
new width =
    if ltb 0 width
    then some (record { width = width; highest = none; words = replicate ((width + 63) / 64) 0 })
    else none

-- `self.words[index / 64]`. Every index that is read or written is below the width.
abbrev pub word_at : ReplayWindow → ℕ → ℕ
word_at w index = get_or w.words (index / 64) 0

abbrev pub put_word : ReplayWindow → ℕ → ℕ → ReplayWindow
put_word w index v = record w { words = set_at w.words (index / 64) v }

pub get : ReplayWindow → ℕ → Bool
get w index = not (bit_and (word_at w index) (2 ^ (index % 64)) == 0)

pub set : ReplayWindow → ℕ → ReplayWindow
set w index = put_word w index (bit_or (word_at w index) (2 ^ (index % 64)))

-- `self.words[index / 64] &= !(1_u64 << (index % 64))`
pub clear : ReplayWindow → ℕ → ReplayWindow
clear w index = put_word w index (bit_and (word_at w index) (2 ^ 64 - 1 - 2 ^ (index % 64)))

-- The body of the first loop of `shift_left`.
pub move : ReplayWindow → ℕ → ℕ → ReplayWindow
unfolding get set clear
move w amount index =
    let previous = index - amount in if get w previous then set w index else clear w index

-- `for index in (amount..amount + n).rev()`
pub move_loop : ReplayWindow → ℕ → ℕ → ReplayWindow
unfolding move
move_loop w amount zero = w
move_loop w amount (suc n) = move_loop (move w amount (amount + n)) amount n

-- `for index in start..start + n`
pub clear_loop : ReplayWindow → ℕ → ℕ → ReplayWindow
unfolding clear
clear_loop w start zero = w
clear_loop w start (suc n) = clear_loop (clear w start) (suc start) n

pub clear_unused_tail : ReplayWindow → ReplayWindow
clear_unused_tail w =
    let used_bits = w.width % 64 in
    let last = length w.words - 1 in
    let mask = 2 ^ used_bits - 1 in
    if not (used_bits == 0)
    then record w { words = set_at w.words last (bit_and (get_or w.words last 0) mask) }
    else w

pub shift_left : ReplayWindow → ℕ → ReplayWindow
unfolding move_loop clear_loop clear_unused_tail
shift_left w amount =
    if leb w.width amount
    then record w { words = replicate (length w.words) 0 }
    else clear_unused_tail (clear_loop (move_loop w amount (w.width - amount)) 0 amount)

-- `accept` after `let Some(highest) = self.highest else`. Only the branches that end in `Ok`
-- change the window.
pub accept_after : ReplayWindow → Option ℕ → ℕ → ReplayWindow × Result ReplayError (Unit {0})
unfolding get set shift_left
accept_after w none packet_number = (set (record w { highest = some packet_number }) 0, ok tt)
accept_after w (some highest) packet_number =
    let shift = packet_number - highest in
    let distance = highest - packet_number in
    if ltb highest packet_number
    then (set (record (shift_left w shift) { highest = some packet_number }) 0, ok tt)
    else (if leb w.width distance
        then (w, err too_old)
        else (if get w distance then (w, err duplicate) else (set w distance, ok tt)))

unfoldable pub accept : ReplayWindow → ℕ → ReplayWindow × Result ReplayError (Unit {0})
unfolding accept_after
accept w packet_number = accept_after w w.highest packet_number
