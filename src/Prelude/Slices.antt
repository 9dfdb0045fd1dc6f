-- ===== src/Prelude/Slices.antt =====
-- Slices and elements of a byte string that is given by its parts. `slice from to xs` is
-- `xs[from..to]`.
use Prim.Native.Nat.{ℕ, zero, suc, ◌+◌, ◌-◌, ◌≤◌}
use mathlib.Core.Path.{◌≡◌, sym, ap, ◌∙◌}
use mathlib.Core.List.{List, [], ◌∷◌, ◌++◌, append-nil}
use native.Mathlib.Omega.{arith}
use udp2raw_ng.Prelude.Lists.{length, get_or, take, drop, drop-drop, drop-append_eq, take-append_eq}

abbrev pub slice : ℕ → ℕ → List ℕ → List ℕ
slice from to xs = take (to - from) (drop from xs)

pub drop_skip :
    (n k : ℕ) (xs ys : List ℕ) → length xs ≡ n → n ≤ k → drop k (xs ++ ys) ≡ drop (k - n) ys
drop_skip n k xs ys h le =
    let sum : k ≡ n + (k - n) = omega arith in
    ap (λ (m : ℕ). drop m (xs ++ ys)) sum
    ∙ sym (drop-drop n (k - n) (xs ++ ys))
    ∙ ap (drop (k - n)) (drop-append_eq n xs ys h)

-- A slice behind the first part.
pub slice_skip :
    (n from to : ℕ) (xs ys : List ℕ)
    → length xs ≡ n
    → n ≤ from
    → slice from to (xs ++ ys) ≡ slice (from - n) (to - n) ys
slice_skip n from to xs ys h le =
    let wide : to - from ≡ to - n - (from - n) = omega arith in
    ap (take (to - from)) (drop_skip n from xs ys h le)
    ∙ ap (λ (m : ℕ). take m (drop (from - n) ys)) wide

-- The slice that is the first part.
pub slice_here : (n : ℕ) (xs ys : List ℕ) → length xs ≡ n → slice 0 n (xs ++ ys) ≡ xs
slice_here n xs ys h = let e : n - 0 ≡ n = omega arith in rw e (take-append_eq n xs ys h)

-- The slice that is the last part.
pub slice_last : (n : ℕ) (xs : List ℕ) → length xs ≡ n → slice 0 n xs ≡ xs
slice_last n xs h =
    let e : n - 0 ≡ n = omega arith in
    rw e (ap (take n) (sym (append-nil xs)) ∙ take-append_eq n xs [] h)

pub get_or_skip :
    (n k : ℕ) (xs ys : List ℕ) → length xs ≡ n → n ≤ k → get_or (xs ++ ys) k 0 ≡ get_or ys (k - n) 0
get_or_skip zero k [] ys h le = let e : k - zero ≡ k = omega arith in rw e
get_or_skip zero k (x ∷ xs) ys h le = absurd (omega arith)
get_or_skip (suc n) k [] ys h le = absurd (omega arith)
get_or_skip (suc n) zero (x ∷ xs) ys h le = absurd (omega arith)
get_or_skip (suc n) (suc k) (x ∷ xs) ys h le =
    let e : suc k - suc n ≡ k - n = omega arith in
    rw e (get_or_skip n k xs ys (omega arith) (omega arith))
