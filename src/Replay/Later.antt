-- ===== src/Replay/Later.antt =====
-- What `accept`, crates/udp2raw-ng-core/src/replay.rs, answers to a number that it accepted earlier.
use mathlib.Core.Path.{subst}
use udp2raw_ng.Prelude.{
  ℕ, max, ◌+◌, ◌-◌, ◌≤◌, ◌<◌, ◌≡◌, ◌⊎◌, refl, sym, ◌∙◌, inl, inr, true, some, List, [], ◌∷◌, arith,
  ltb, leb, eq_self, Bool-cases, Option-cases, ok, err, contains,
}
use udp2raw_ng.Errors.{duplicate, too_old}
use udp2raw_ng.Replay.{ReplayWindow, accept}
use udp2raw_ng.Replay.Refinement.{
  Outcome, top, accept_spec, Represents, accept-accept_spec, above-top,
}
use udp2raw_ng.Replay.Runs.{accept_spec_cases}

-- A window that stands for numbers of which one is `n`.
pub record Remembers (n width : ℕ) (w : ReplayWindow) : Type 0 where
  pub seen : List ℕ
  pub stands : Represents w seen
  pub there : contains n seen ≡ true
  pub wide : w.width ≡ width

contains-more : (n p : ℕ) (seen : List ℕ) → contains n seen ≡ true → contains n (p ∷ seen) ≡ true
contains-more n p seen h = ground (arith, h)

-- Whatever numbers come in between, an accepted number is remembered.
pub accept-Remembers :
    (n width p : ℕ) (w : ReplayWindow) → Remembers n width w → Remembers n width (accept w p).0
accept-Remembers n width p w m =
    let (same, kept, wide) = accept-accept_spec w m.seen p m.stands in
    elim (accept_spec_cases w.width m.seen p) [
      | inl (fine, grown, fresh) ↦ record {
        seen = p ∷ m.seen;
        stands = subst (Represents (accept w p).0) grown kept;
        there = contains-more n p m.seen m.there;
        wide = wide ∙ m.wide;
      }
      | inr (x, bad, same_list) ↦ record {
        seen = m.seen;
        stands = subst (Represents (accept w p).0) same_list kept;
        there = m.there;
        wide = wide ∙ m.wide;
      }
    ]

-- A number that is accepted is remembered.
pub accepted-Remembers :
    (n : ℕ) (w : ReplayWindow) (seen : List ℕ)
    → Represents w seen
    → (accept w n).1 ≡ ok tt
    → Remembers n w.width (accept w n).0
accepted-Remembers n w seen r fine =
    let (same, kept, wide) = accept-accept_spec w seen n r in
    elim (accept_spec_cases w.width seen n) [
      | inl (_, grown, fresh) ↦ record {
        seen = n ∷ seen;
        stands = subst (Represents (accept w n).0) grown kept;
        there = rw (eq_self n);
        wide = wide;
      }
      | inr (x, bad, _) ↦ absurd cc
    ]

-- The answer to a number again: a duplicate while it lies in the window, and too old below it.
abbrev pub AgainAt : ℕ → ReplayWindow → Outcome → Type 0
AgainAt n w answer =
    (h : ℕ) × (w.highest ≡ some h)
    × (((answer ≡ err duplicate) × (h < n + w.width))
        ⊎ ((answer ≡ err too_old) × (n + w.width ≤ h)))

contains-top : (n : ℕ) (seen : List ℕ) → contains n seen ≡ true → (h : ℕ) × (top seen ≡ some h)
contains-top n [] e = absurd cc
contains-top n (p ∷ seen) e = elim (Option-cases (top seen)) [
  | inl t ↦ (p, rw t)
  | inr (q, t) ↦ (max p q, rw t)
]

again-AgainAt :
    (n h : ℕ) (w : ReplayWindow) (seen : List ℕ)
    → w.highest ≡ some h
    → top seen ≡ some h
    → contains n seen ≡ true
    → AgainAt n w (accept_spec w.width seen n).1
unfolding accept_spec
again-AgainAt n h w seen highest e there = elim (Bool-cases (ltb h n)) [
  | inl above ↦ let missing = above-top h n seen e (ground arith) in absurd cc
  | inr below ↦ elim (Bool-cases (leb w.width (h - n))) [
    | inl old ↦ rw (e, accept_spec, below, old) (h, highest, inr (refl, ground arith))
    | inr recent ↦ rw (e, accept_spec, below, recent, there) (h, highest, inl (refl, ground arith))
  ]
]

pub accept-AgainAt :
    (n width : ℕ) (w : ReplayWindow) → Remembers n width w → AgainAt n w (accept w n).1
accept-AgainAt n width w m =
    let (h, e) = contains-top n m.seen m.there in
    subst (AgainAt n w) (sym (accept-accept_spec w m.seen n m.stands).0)
      (again-AgainAt n h w m.seen (m.stands.highest_is ∙ e) e m.there)
