-- ===== src/Replay/Runs.antt =====
-- Whole histories of calls of `accept`, crates/udp2raw-ng-core/src/replay.rs.
use udp2raw_ng.Prelude.{
  ℕ, ◌+◌, ◌-◌, ◌<◌, ◌≡◌, ◌↔◌, ◌⊎◌, refl, sym, ◌∙◌, inl, inr, false, Option, none, some, List, [],
  ◌∷◌, arith, ltb, leb, Bool-cases, Option-cases, ok, err, contains,
}
use mathlib.Core.Path.{subst, ap₂}
use udp2raw_ng.Errors.{ReplayError, duplicate, too_old}
use udp2raw_ng.Replay.{ReplayWindow, new, accept_after, accept}
use udp2raw_ng.Replay.Refinement.{
  top, accept_spec, Represents, new-Represents, accept-accept_spec, above-top, Outcome,
}

-- The answers to a list of packet numbers.
unfoldable pub run : ReplayWindow → List ℕ → List Outcome
run w [] = []
run w (p ∷ ps) = (accept w p).1 ∷ run (accept w p).0 ps

pub run_spec : ℕ → List ℕ → List ℕ → List Outcome
run_spec width seen [] = []
run_spec width seen (p ∷ ps) =
    (accept_spec width seen p).1 ∷ run_spec width (accept_spec width seen p).0 ps

run-Represents :
    (width : ℕ) (w : ReplayWindow) (seen ps : List ℕ)
    → w.width ≡ width
    → Represents w seen
    → run w ps ≡ run_spec width seen ps
unfolding run run_spec
run-Represents width w seen [] e r = refl
run-Represents width w seen (p ∷ ps) e r =
    let (same, kept, wide) = accept-accept_spec w seen p r in
    subst
      (λ (n : ℕ).
        (accept w p).1 ∷ run (accept w p).0 ps
        ≡ (accept_spec n seen p).1 ∷ run_spec width (accept_spec n seen p).0 ps)
      e
      (ap₂ ◌∷◌ same
        (run-Represents width (accept w p).0 (accept_spec w.width seen p).0 ps (wide ∙ e) kept))

-- Every history of calls on a new window of any width is answered as the list of the numbers
-- accepted so far demands.
pub run-run_spec :
    (width : ℕ) (w : ReplayWindow) (ps : List ℕ)
    → new width ≡ some w
    → run w ps ≡ run_spec width [] ps
unfolding new
run-run_spec width w ps e = run-Represents width w [] ps (ground arith) (new-Represents width w e)

contains-none : (p : ℕ) (seen : List ℕ) → top seen ≡ none → contains p seen ≡ false
contains-none p [] e = refl
contains-none p (q ∷ seen) e = ground arith

accept_spec-ok_iff :
    (width : ℕ) (seen : List ℕ) (p : ℕ)
    → ((accept_spec width seen p).1 ≡ ok tt)
      ↔ (contains p seen ≡ false) × ((h : ℕ) → top seen ≡ some h → h < p + width)
unfolding accept_spec
accept_spec-ok_iff width seen p = elim (Option-cases (top seen)) [
  | inl n ↦ rw (n, accept_spec) (λ _. (contains-none p seen n, λ h e. cc), λ _. refl)
  | inr (h, e) ↦ elim (Bool-cases (ltb h p)) [
    | inl above ↦
        rw (e, accept_spec, above)
          (λ _. (above-top h p seen e (ground arith), λ g t. ground arith), λ _. refl)
    | inr below ↦ elim (Bool-cases (leb width (h - p))) [
      | inl old ↦ rw (e, accept_spec, below, old) (λ x. cc, λ k. ground (arith, k.1 h refl))
      | inr recent ↦
          rw (e, accept_spec, below, recent) (λ x. (ground arith, λ g t. ground arith), λ k. rw k.0)
    ]
  ]
]

-- An accepted number joins the list and was not in it; a refused one leaves the list alone.
pub accept_spec_cases :
    (width : ℕ) (seen : List ℕ) (p : ℕ)
    → (((accept_spec width seen p).1 ≡ ok tt)
        × ((accept_spec width seen p).0 ≡ p ∷ seen)
        × (contains p seen ≡ false))
      ⊎ ((x : ReplayError) × ((accept_spec width seen p).1 ≡ err x)
          × ((accept_spec width seen p).0 ≡ seen))
unfolding accept_spec
accept_spec_cases width seen p = elim (Option-cases (top seen)) [
  | inl n ↦ rw (n, accept_spec) (inl (refl, refl, contains-none p seen n))
  | inr (h, e) ↦ elim (Bool-cases (ltb h p)) [
    | inl above ↦ rw (e, accept_spec, above) (inl (refl, refl, above-top h p seen e (ground arith)))
    | inr below ↦ elim (Bool-cases (leb width (h - p))) [
      | inl old ↦ rw (e, accept_spec, below, old) (inr (too_old, refl, refl))
      | inr recent ↦ elim (Bool-cases (contains p seen)) [
        | inl again ↦ rw (e, accept_spec, below, recent, again) (inr (duplicate, refl, refl))
        | inr fresh ↦ rw (e, accept_spec, below, recent, fresh) (inl (refl, refl, refl))
      ]
    ]
  ]
]

-- A window that stands for a list of accepted numbers accepts a number exactly when it is not in
-- the list and is not `width` or more below the highest number accepted.
pub accept-ok_iff :
    (w : ReplayWindow) (seen : List ℕ) (p : ℕ)
    → Represents w seen
    → ((accept w p).1 ≡ ok tt)
      ↔ (contains p seen ≡ false) × ((h : ℕ) → top seen ≡ some h → h < p + w.width)
accept-ok_iff w seen p r = rw (accept-accept_spec w seen p r).0 (accept_spec-ok_iff w.width seen p)

-- The numbers that a history of calls accepts, the last one first.
pub accepted : ReplayWindow → List ℕ → List ℕ → List ℕ
accepted w seen [] = seen
accepted w seen (p ∷ ps) =
    accepted (accept w p).0 (elim (accept w p).1 [ ok a ↦ p ∷ seen | err e ↦ seen ]) ps

abbrev pub Distinct : List ℕ → Type 0
Distinct [] = Unit {0}
Distinct (x ∷ xs) = (contains x xs ≡ false) × Distinct xs

accepted-Distinct :
    (w : ReplayWindow) (seen ps : List ℕ)
    → Represents w seen
    → Distinct seen
    → Distinct (accepted w seen ps)
unfolding accepted
accepted-Distinct w seen [] r d = d
accepted-Distinct w seen (p ∷ ps) r d =
    let (same, kept, wide) = accept-accept_spec w seen p r in
    elim (accept_spec_cases w.width seen p) [
      | inl (fine, grown, fresh) ↦
          rw (same, fine)
            (accepted-Distinct (accept w p).0 (p ∷ seen) ps
              (subst (Represents (accept w p).0) grown kept) (fresh, d))
      | inr (x, bad, same_list) ↦
          rw (same, bad)
            (accepted-Distinct (accept w p).0 seen ps
              (subst (Represents (accept w p).0) same_list kept) d)
    ]

-- No history of calls on a new window accepts a packet number twice.
pub accepted_once :
    (width : ℕ) (w : ReplayWindow) (ps : List ℕ) → new width ≡ some w → Distinct (accepted w [] ps)
accepted_once width w ps e = accepted-Distinct w [] ps (new-Represents width w e) tt

again_spec :
    (width : ℕ) (seen : List ℕ) (p : ℕ)
    → 0 < width
    → ((h : ℕ) → top seen ≡ some h → h < p + width)
    → (accept_spec width (p ∷ seen) p).1 ≡ err duplicate
unfolding accept_spec
again_spec width seen p pos near = elim (Option-cases (top seen)) [
  | inl n ↦ ground (arith, n)
  | inr (h, e) ↦ ground (arith, e, near h e)
]

-- A number that was accepted is a duplicate when it comes again at once.
pub accept_twice :
    (w : ReplayWindow) (seen : List ℕ) (p : ℕ)
    → Represents w seen
    → (accept w p).1 ≡ ok tt
    → (accept (accept w p).0 p).1 ≡ err duplicate
accept_twice w seen p r e =
    let (same, kept, wide) = accept-accept_spec w seen p r in
    let (fresh, near) = (accept-ok_iff w seen p r).0 e in
    elim (accept_spec_cases w.width seen p) [
      | inl (fine, grown, _) ↦
          let now : Represents (accept w p).0 (p ∷ seen) =
            subst (Represents (accept w p).0) grown kept in
          (accept-accept_spec (accept w p).0 (p ∷ seen) p now).0
          ∙ again_spec (accept w p).0.width seen p now.shape.positive
              (subst (λ (n : ℕ). (h : ℕ) → top seen ≡ some h → h < p + n) (sym wide) near)
      | inr (x, bad, _) ↦ cc
    ]

accept_after-err :
    (w : ReplayWindow) (t : Option ℕ) (p : ℕ) (x : ReplayError)
    → (accept_after w t p).1 ≡ err x
    → (accept_after w t p).0 ≡ w
unfolding accept_after
accept_after-err w none p x e = cc
accept_after-err w (some h) p x e = ground arith

-- A number that is refused leaves the window as it was.
pub accept-err :
    (w : ReplayWindow) (p : ℕ) (x : ReplayError) → (accept w p).1 ≡ err x → (accept w p).0 ≡ w
unfolding accept
accept-err w p x e = accept_after-err w w.highest p x e
