-- ===== src/Prelude/Maps.antt =====
-- Hash maps with numbers for keys, as association lists that hold a key once.
use Prim.Native.Nat.{ℕ, ◌≤◌, ◌<◌}
use mathlib.Core.Path.{◌≡◌, refl, sym, ap, ◌∙◌, subst}
use mathlib.Core.Logic.{◌≢◌, ◌⊎◌, inl, inr}
use mathlib.Core.Bool.{Bool, false}
use mathlib.Core.List.{List, [], ◌∷◌}
use mathlib.Core.Option.{Option, none, some}
use native.Mathlib.Omega.{arith}
use udp2raw_ng.Prelude.Lists.{length}
use udp2raw_ng.Prelude.Tests.{◌==◌, if◌then◌else◌, Bool-cases, eq_self, ==_iff}

abbrev pub Map {ℓ} : Type ℓ → Type ℓ
Map A = List (ℕ × A)

module _ {ℓ} {A : Type ℓ} where
  -- `HashMap::get`
  abbrev pub lookup : Map A → ℕ → Option A
  lookup [] k = none
  lookup (p ∷ m) k = if p.0 == k then some p.1 else lookup m k

  -- `HashMap::remove`, without the value that it returns.
  abbrev pub remove : Map A → ℕ → Map A
  remove [] k = []
  remove (p ∷ m) k = let rest = remove m k in if p.0 == k then rest else p ∷ rest

  -- `HashMap::insert`, without the value that it returns.
  abbrev pub insert : Map A → ℕ → A → Map A
  insert m k v = (k, v) ∷ remove m k

  -- `HashMap::retain`, with a test of the values.
  abbrev pub retain : (A → Bool) → Map A → Map A
  retain keep [] = []
  retain keep (p ∷ m) = let rest = retain keep m in if keep p.1 then p ∷ rest else rest

  pub lookup-remove_self : (m : Map A) (k : ℕ) → lookup (remove m k) k ≡ none
  lookup-remove_self [] k = refl
  lookup-remove_self (p ∷ m) k = elim (Bool-cases (p.0 == k)) [
    | inl e ↦ rw e (lookup-remove_self m k)
    | inr e ↦ rw (e, e) (lookup-remove_self m k)
  ]

  pub lookup-remove_ne : (m : Map A) (k j : ℕ) → k ≢ j → lookup (remove m k) j ≡ lookup m j
  lookup-remove_ne [] k j h = refl
  lookup-remove_ne (p ∷ m) k j h = elim (Bool-cases (p.0 == k)) [
    | inl e ↦
        let other : (p.0 == j) ≡ false = ground arith in rw (e, other) (lookup-remove_ne m k j h)
    | inr e ↦ elim (Bool-cases (p.0 == j)) [
      | inl e1 ↦ rw (e, e1)
      | inr e1 ↦ rw (e, e1) (lookup-remove_ne m k j h)
    ]
  ]

  pub lookup-insert_self : (m : Map A) (k : ℕ) (v : A) → lookup (insert m k v) k ≡ some v
  lookup-insert_self m k v = rw (eq_self k)

  pub lookup-insert_ne :
      (m : Map A) (k j : ℕ) (v : A) → k ≢ j → lookup (insert m k v) j ≡ lookup m j
  lookup-insert_ne m k j v h =
      let other : (k == j) ≡ false = ground arith in rw other (lookup-remove_ne m k j h)

  -- What is found was inserted last, or was there before under another key.
  pub lookup-insert_inv :
      (m : Map A) (k j : ℕ) (v w : A)
      → lookup (insert m k v) j ≡ some w
      → ((k ≡ j) × (v ≡ w)) ⊎ ((k ≢ j) × (lookup m j ≡ some w))
  lookup-insert_inv m k j v w e = elim (Bool-cases (k == j)) [
    | inl same ↦
        let key = (==_iff k j).0 same in let found : some v ≡ some w = rw same at e in inl (key, cc)
    | inr other ↦
        let key : k ≢ j = ground arith in inr (key, sym (lookup-insert_ne m k j v key) ∙ e)
  ]

  pub lookup-remove_inv :
      (m : Map A) (k j : ℕ) (w : A)
      → lookup (remove m k) j ≡ some w
      → (k ≢ j) × (lookup m j ≡ some w)
  lookup-remove_inv m k j w e =
      let key : k ≢ j = λ same. elim (Bool-cases (k == j)) [
        | inl t ↦
            let gone : lookup (remove m k) j ≡ none =
              subst (λ (i : ℕ). lookup (remove m k) i ≡ none) same (lookup-remove_self m k) in
            let bad : some w ≡ none = sym e ∙ gone in cc
        | inr f ↦ absurd (ground arith)
      ] in
      (key, sym (lookup-remove_ne m k j key) ∙ e)

module _ {ℓ} {A : Type ℓ} where
  pub length-remove : (m : Map A) (k : ℕ) → length (remove m k) ≤ length m
  length-remove [] k = omega arith
  length-remove (p ∷ m) k = elim (Bool-cases (p.0 == k)) [
    | inl e ↦ rw e (omega (arith, length-remove m k))
    | inr e ↦ rw e (omega (arith, length-remove m k))
  ]

  pub length-retain : (keep : A → Bool) (m : Map A) → length (retain keep m) ≤ length m
  length-retain keep [] = omega arith
  length-retain keep (p ∷ m) = elim (Bool-cases (keep p.1)) [
    | inl e ↦ rw e (omega (arith, length-retain keep m))
    | inr e ↦ rw e (omega (arith, length-retain keep m))
  ]

  -- A key that is there is removed.
  pub length-remove_found :
      (m : Map A) (k : ℕ) (v : A) → lookup m k ≡ some v → length (remove m k) < length m
  length-remove_found [] k v h = absurd cc
  length-remove_found (p ∷ m) k v h = elim (Bool-cases (p.0 == k)) [
    | inl e ↦ rw e (omega (arith, length-remove m k))
    | inr e ↦
        let there : lookup m k ≡ some v = rw e at h in
        rw e (omega (arith, length-remove_found m k v there))
  ]

-- What holds of every value.
abbrev pub All {ℓ} : {A : Type ℓ} → (A → Type 0) → Map A → Type 0
All P [] = Unit {0}
All P (p ∷ m) = P p.1 × All P m

module _ {ℓ} {A : Type ℓ} (P : A → Type 0) where
  pub All-remove : (m : Map A) (k : ℕ) → All P m → All P (remove m k)
  All-remove [] k a = tt
  All-remove (p ∷ m) k a = elim (Bool-cases (p.0 == k)) [
    | inl e ↦ rw e (All-remove m k a.1)
    | inr e ↦ rw e (a.0, All-remove m k a.1)
  ]

  pub All-insert : (m : Map A) (k : ℕ) (v : A) → All P m → P v → All P (insert m k v)
  All-insert m k v a h = (h, All-remove m k a)

  pub All-retain : (keep : A → Bool) (m : Map A) → All P m → All P (retain keep m)
  All-retain keep [] a = tt
  All-retain keep (p ∷ m) a = elim (Bool-cases (keep p.1)) [
    | inl e ↦ rw e (a.0, All-retain keep m a.1)
    | inr e ↦ rw e (All-retain keep m a.1)
  ]

  pub All-lookup : (m : Map A) (k : ℕ) (v : A) → All P m → lookup m k ≡ some v → P v
  All-lookup [] k v a h = absurd cc
  All-lookup (p ∷ m) k v a h = elim (Bool-cases (p.0 == k)) [
    | inl e ↦
        let found : some p.1 ≡ some v = rw e at h in let same : p.1 ≡ v = cc in subst P same a.0
    | inr e ↦ let there : lookup m k ≡ some v = rw e at h in All-lookup m k v a.1 there
  ]

-- A map holds a key once.
abbrev pub IsDistinct : {A : Type 0} → Map A → Type 0
IsDistinct [] = Unit {0}
IsDistinct (p ∷ m) = (lookup m p.0 ≡ none) × IsDistinct m

module _ {A : Type 0} where
  pub remove-IsDistinct : (m : Map A) (k : ℕ) → IsDistinct m → IsDistinct (remove m k)
  remove-IsDistinct [] k d = tt
  remove-IsDistinct (p ∷ m) k d = elim (Bool-cases (p.0 == k)) [
    | inl e ↦ rw e (remove-IsDistinct m k d.1)
    | inr e ↦
        let other : k ≢ p.0 = ground arith in
        rw e (lookup-remove_ne m k p.0 other ∙ d.0, remove-IsDistinct m k d.1)
  ]

  pub insert-IsDistinct : (m : Map A) (k : ℕ) (v : A) → IsDistinct m → IsDistinct (insert m k v)
  insert-IsDistinct m k v d = (lookup-remove_self m k, remove-IsDistinct m k d)

-- What one map gives for a key, the other gives back.
abbrev pub Inverts : Map ℕ → Map ℕ → Type 0
Inverts m n = (c k : ℕ) → lookup m c ≡ some k → lookup n k ≡ some c

pub insert-Inverts :
    (m n : Map ℕ) (c k : ℕ)
    → Inverts m n
    → lookup n k ≡ none
    → Inverts (insert m c k) (insert n k c)
insert-Inverts m n c k inv fresh d j e = elim (lookup-insert_inv m c d k j e) [
  | inl same ↦ rw (← same.0, ← same.1) (lookup-insert_self n k c)
  | inr other ↦
      let found = inv d j other.1 in
      let key : k ≢ j = λ h. subst (λ (i : ℕ). lookup n i ≢ some d) h (λ x. cc) found in
      lookup-insert_ne n k j c key ∙ found
]

pub remove-Inverts :
    (m n : Map ℕ) (c k : ℕ) → Inverts m n → lookup n k ≡ some c → Inverts (remove m c) (remove n k)
remove-Inverts m n c k inv held d j e =
    let (other, there) = lookup-remove_inv m c d j e in
    let found = inv d j there in
    let key : k ≢ j =
      λ h. let both : some c ≡ some d = sym held ∙ ap (lookup n) h ∙ found in other cc in
    lookup-remove_ne n k j key ∙ found
