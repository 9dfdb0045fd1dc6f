-- ===== src/Prelude/Bytes.antt =====
-- Bytes, and the big-endian form of a machine word (`to_be_bytes`, `from_be_bytes`).
use Prim.Native.Nat.{ℕ, zero, suc, ◌+◌, ◌*◌, ◌/◌, ◌%◌, ◌^◌, ◌<◌, ◌≤◌}
use mathlib.Core.Path.{◌≡◌, refl, sym, ap, ◌∙◌}
use mathlib.Core.List.{List, [], ◌∷◌, ◌++◌, append_assoc, append-nil}
use Prim.Native.Char.{code}
use Prim.Native.String.{String}
use native.Mathlib.Omega.{arith}
use native.Mathlib.Nat.{pow-suc}
use udp2raw_ng.Prelude.Lists.{length, All, length-append, All-append}

abbrev pub IsByte : ℕ → Type 0
IsByte b = b < 256

abbrev pub AreBytes : List ℕ → Type 0
AreBytes = All IsByte

-- The lowest `n` bytes of a word, the highest first.
unfoldable pub be_bytes : ℕ → ℕ → List ℕ
be_bytes zero v = []
be_bytes (suc n) v = be_bytes n (v / 256) ++ (v % 256 ∷ [])

unfoldable pub be_fold : ℕ → List ℕ → ℕ
be_fold acc [] = acc
be_fold acc (b ∷ bs) = be_fold (acc * 256 + b) bs

unfoldable pub from_be : List ℕ → ℕ
unfolding be_fold
from_be bs = be_fold 0 bs

pub length-be_bytes : (n v : ℕ) → length (be_bytes n v) ≡ n
unfolding be_bytes
length-be_bytes zero v = refl
length-be_bytes (suc n) v =
    omega (arith, length-append (be_bytes n (v / 256)) (v % 256 ∷ []), length-be_bytes n (v / 256))

pub be_bytes-AreBytes : (n v : ℕ) → AreBytes (be_bytes n v)
unfolding be_bytes
be_bytes-AreBytes zero v = tt
be_bytes-AreBytes (suc n) v =
    All-append IsByte (be_bytes n (v / 256)) (v % 256 ∷ []) (be_bytes-AreBytes n (v / 256))
      (omega arith, tt)

be_fold_snoc :
    (acc : ℕ) (bs : List ℕ) (b : ℕ) → be_fold acc (bs ++ (b ∷ [])) ≡ be_fold acc bs * 256 + b
unfolding be_fold
be_fold_snoc acc [] b = refl
be_fold_snoc acc (c ∷ bs) b = be_fold_snoc (acc * 256 + c) bs b

pow_256 : (n : ℕ) → 256 ^ suc n ≡ 256 * 256 ^ n
pow_256 n = rw pow-suc (omega arith)

be_fold-be_bytes : (n acc v : ℕ) → v < 256 ^ n → be_fold acc (be_bytes n v) ≡ acc * 256 ^ n + v
unfolding be_bytes be_fold
be_fold-be_bytes zero acc v h = omega arith
be_fold-be_bytes (suc n) acc v h = omega (
  arith,
  be_fold_snoc acc (be_bytes n (v / 256)) (v % 256),
  be_fold-be_bytes n acc (v / 256) (omega (arith, pow_256 n)),
  pow_256 n,
  ap (λ (t : ℕ). acc * t) (pow_256 n),
)

-- A word that fits is read back.
pub from_be-be_bytes : (n v : ℕ) → v < 256 ^ n → from_be (be_bytes n v) ≡ v
unfolding from_be
from_be-be_bytes n v h = omega (arith, be_fold-be_bytes n 0 v h)

be_bytes_snoc :
    (n acc b : ℕ) → b < 256 → be_bytes (suc n) (acc * 256 + b) ≡ be_bytes n acc ++ (b ∷ [])
unfolding be_bytes
be_bytes_snoc n acc b h =
    let quotient : (acc * 256 + b) / 256 ≡ acc = omega arith in
    let remainder : (acc * 256 + b) % 256 ≡ b = omega arith in rw (quotient, remainder)

be_bytes-be_fold :
    (n acc : ℕ) (bs : List ℕ)
    → AreBytes bs
    → be_bytes (length bs + n) (be_fold acc bs) ≡ be_bytes n acc ++ bs
unfolding be_fold
be_bytes-be_fold n acc [] p =
    ap (λ (t : ℕ). be_bytes t acc) (omega arith) ∙ sym (append-nil (be_bytes n acc))
be_bytes-be_fold n acc (b ∷ bs) p =
    ap (λ (t : ℕ). be_bytes t (be_fold (acc * 256 + b) bs)) (omega arith)
    ∙ be_bytes-be_fold (suc n) (acc * 256 + b) bs p.1
    ∙ ap (λ (t : List ℕ). t ++ bs) (be_bytes_snoc n acc b p.0)
    ∙ append_assoc (be_bytes n acc) (b ∷ []) bs

mul_le : (a b c : ℕ) → a ≤ b → a * c ≤ b * c
mul_le a b c h = grind arith

be_fold-lt : (acc : ℕ) (bs : List ℕ) → AreBytes bs → be_fold acc bs < (acc + 1) * 256 ^ length bs
unfolding be_fold
be_fold-lt acc [] p = omega arith
be_fold-lt acc (b ∷ bs) p =
    let step : acc * 256 + b + 1 ≤ (acc + 1) * 256 = omega (arith, p.0) in
    omega (
      arith,
      be_fold-lt (acc * 256 + b) bs p.1,
      pow_256 (length bs),
      ap (λ (t : ℕ). (acc + 1) * t) (pow_256 (length bs)),
      mul_le (acc * 256 + b + 1) ((acc + 1) * 256) (256 ^ length bs) step,
    )

same_width :
    (bs : List ℕ) → be_bytes (length bs) (be_fold 0 bs) ≡ be_bytes (length bs + 0) (be_fold 0 bs)
same_width bs =
    let e : length bs ≡ length bs + 0 = omega arith in ap (λ (t : ℕ). be_bytes t (be_fold 0 bs)) e

-- Bytes that are read as a word are written back, and the word fits.
pub be_bytes-from_be : (bs : List ℕ) → AreBytes bs → be_bytes (length bs) (from_be bs) ≡ bs
unfolding from_be be_bytes
be_bytes-from_be bs p = same_width bs ∙ be_bytes-be_fold 0 0 bs p

pub from_be-lt : (bs : List ℕ) → AreBytes bs → from_be bs < 256 ^ length bs
unfolding from_be
from_be-lt bs p = omega (arith, be_fold-lt 0 bs p)

-- A byte string literal `b"..."`.
abbrev pub codes : String → List ℕ
codes String.[] = []
codes (String.◌∷◌ c s) = code c ∷ codes s
