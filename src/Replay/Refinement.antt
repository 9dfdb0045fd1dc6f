-- ===== src/Replay/Refinement.antt =====
-- What crates/udp2raw-ng-core/src/replay.rs is to do, stated over the list of the packet numbers
-- accepted so far, and its relation to the words and shifts of `ReplayWindow`.
use udp2raw_ng.Prelude.{
  ℕ, ◌+◌, ◌-◌, ◌/◌, ◌≤◌, ◌<◌, max, ◌≡◌, refl, sym, ap, ◌∙◌, inl, inr, true, false, Option, none,
  some, List, [], ◌∷◌, arith, ltb, leb, ◌==◌, if◌then◌else◌, Bool-cases, Option-cases, Result, ok,
  err, length, contains, length-replicate,
}
use mathlib.Core.Path.{subst}
use udp2raw_ng.Errors.{ReplayError, duplicate, too_old}
use udp2raw_ng.Replay.{ReplayWindow, new, get, set, shift_left, accept_after, accept}
use udp2raw_ng.Replay.Window.{
  IsSized, SameShape, get-set, set-SameShape, get-shift_left, get-zeros, shift_left-SameShape,
}

abbrev pub Outcome : Type 0
Outcome = Result ReplayError (Unit {0})

-- The highest of the numbers accepted.
abbrev pub top : List ℕ → Option ℕ
top [] = none
top (p ∷ ps) = elim (top ps) [ none ↦ some p | some q ↦ some (max p q) ]

-- The filter by its promise: a number above all others is new; one that lies `width` or more below
-- the highest is too old; of the rest, one is refused if it was accepted before.
unfoldable pub accept_spec : ℕ → List ℕ → ℕ → List ℕ × Outcome
accept_spec width seen p = elim (top seen) [
  | none ↦ (p ∷ seen, ok tt)
  | some highest ↦
      if ltb highest p
      then (p ∷ seen, ok tt)
      else (if leb width (highest - p)
          then (seen, err too_old)
          else (if contains p seen then (seen, err duplicate) else (p ∷ seen, ok tt)))
]

-- The window stands for the numbers accepted: each bit below the width that stands for a number
-- tells whether that number is among them.
pub record Represents (w : ReplayWindow) (seen : List ℕ) : Type 0 where
  pub shape : IsSized w
  pub highest_is : w.highest ≡ top seen
  pub blank : (i : ℕ) → top seen ≡ none → i < w.width → get w i ≡ false
  pub bits : (h i : ℕ) → top seen ≡ some h → i < w.width → i ≤ h → get w i ≡ contains (h - i) seen

pub above-top : (h p : ℕ) (seen : List ℕ) → top seen ≡ some h → h < p → contains p seen ≡ false
above-top h p [] e lt = refl
above-top h p (q ∷ seen) e lt = elim (Option-cases (top seen)) [
  | inl n ↦ ground (arith, n, contains-none p seen n)
  | inr (g, s) ↦ ground (arith, s, above-top g p seen s)
]
  where
    contains-none : (p : ℕ) (seen : List ℕ) → top seen ≡ none → contains p seen ≡ false
    contains-none p [] e = refl
    contains-none p (q ∷ seen) e = ground arith

get-new : (width : ℕ) (w : ReplayWindow) (i : ℕ) → new width ≡ some w → get w i ≡ false
unfolding new
get-new width w i e =
    ground (
      arith,
      get-zeros (record { width = width; highest = none; words = [] }) ((width + 63) / 64) i,
    )

pub new-Represents : (width : ℕ) (w : ReplayWindow) → new width ≡ some w → Represents w []
unfolding new
new-Represents width w e = record {
  shape = record {
    positive = ground arith;
    sized = ground (arith, length-replicate {A = ℕ} ((width + 63) / 64) 0);
  };
  highest_is = ground arith;
  blank = λ i _ lt. ground (arith, get-new width w i e);
  bits = λ h i t _ _. cc;
}

shape_of : (v w : ReplayWindow) → SameShape v w → IsSized w → IsSized v
shape_of v w same s = record {
  positive = ground (arith, s.positive);
  sized = ground (arith, s.sized);
}

top-none : (seen : List ℕ) → top seen ≡ none → seen ≡ []
top-none [] e = refl
top-none (p ∷ seen) e = ground arith

abbrev record_at : ReplayWindow → ℕ → ReplayWindow
record_at w p = record w { highest = some p }

get-record_at : (w : ReplayWindow) (p i : ℕ) → get (record_at w p) i ≡ get w i
unfolding get
get-record_at w p i = refl

-- The bit of the highest number itself, which `accept` sets after a shift.
get-marked :
    (w : ReplayWindow) (p i : ℕ)
    → IsSized w
    → get (set (record_at w p) 0) i ≡ (if 0 == i then true else get w i)
get-marked w p i s =
    let inside : 0 / 64 < length w.words = omega (arith, s.sized, s.positive) in
    ground (arith, get-set (record_at w p) 0 i inside, get-record_at w p i)

at_top :
    (w : ReplayWindow) (p h i : ℕ) (seen : List ℕ)
    → p ≡ h
    → get w i ≡ contains (p - i) seen
    → get w i ≡ contains (h - i) seen
at_top w p h i seen e t = subst (λ (q : ℕ). get w i ≡ contains (q - i) seen) e t

first-bits :
    (w : ReplayWindow) (p i : ℕ) (seen : List ℕ)
    → Represents w seen
    → top seen ≡ none
    → i < w.width
    → i ≤ p
    → get (set (record_at w p) 0) i ≡ contains (p - i) (p ∷ seen)
first-bits w p i seen r e lt le =
    ground (arith, get-marked w p i r.shape, r.blank i, top-none seen e, contains-nil (p - i) seen)
  where
    contains-nil : (q : ℕ) (xs : List ℕ) → xs ≡ [] → contains q xs ≡ false
    contains-nil q [] e = refl
    contains-nil q (x ∷ xs) e = cc

first-Represents :
    (w : ReplayWindow) (seen : List ℕ) (p : ℕ)
    → Represents w seen
    → top seen ≡ none
    → Represents (set (record_at w p) 0) (p ∷ seen)
unfolding set
first-Represents w seen p r e = record {
  shape = shape_of _ w (set-SameShape (record_at w p) 0) r.shape;
  highest_is = ground arith;
  blank = λ i t lt. ground arith;
  bits = λ h i t lt le.
      let same : p ≡ h = ground arith in
      at_top (set (record_at w p) 0) p h i (p ∷ seen) same
        (first-bits w p i seen r e lt (omega arith));
}

higher-bits :
    (w : ReplayWindow) (p h i : ℕ) (seen : List ℕ)
    → Represents w seen
    → top seen ≡ some h
    → h < p
    → i < w.width
    → i ≤ p
    → get (set (record_at (shift_left w (p - h)) p) 0) i ≡ contains (p - i) (p ∷ seen)
higher-bits w p h i seen r e above lt le = ground (
  arith,
  get-marked (shift_left w (p - h)) p i (shape_of _ w (shift_left-SameShape w (p - h)) r.shape),
  get-shift_left w (p - h) i r.shape lt,
  above-top h (p - i) seen e,
  r.bits h (i - (p - h)) e,
  distance,
)
  where
    distance : p - h ≤ i → h - (i - (p - h)) ≡ p - i
    distance k = omega arith

higher-Represents :
    (w : ReplayWindow) (seen : List ℕ) (p h : ℕ)
    → Represents w seen
    → top seen ≡ some h
    → h < p
    → Represents (set (record_at (shift_left w (p - h)) p) 0) (p ∷ seen)
unfolding set
higher-Represents w seen p h r e above = record {
  shape =
      shape_of _ (shift_left w (p - h)) (set-SameShape (record_at (shift_left w (p - h)) p) 0)
        (shape_of _ w (shift_left-SameShape w (p - h)) r.shape);
  highest_is = ground arith;
  blank = λ i t lt. ground arith;
  bits = λ g i t lt le.
      let same : p ≡ g = ground arith in
      at_top (set (record_at (shift_left w (p - h)) p) 0) p g i (p ∷ seen) same (
        higher-bits w p h i seen r e above (omega (arith, shift_left-SameShape w (p - h)))
          (omega arith));
}

within-Represents :
    (w : ReplayWindow) (seen : List ℕ) (p h : ℕ)
    → Represents w seen
    → top seen ≡ some h
    → p ≤ h
    → h - p < w.width
    → Represents (set w (h - p)) (p ∷ seen)
unfolding set
within-Represents w seen p h r e le lt = record {
  shape = shape_of _ w (set-SameShape w (h - p)) r.shape;
  highest_is = ground (arith, r.highest_is);
  blank = λ i t lt. ground arith;
  bits = λ g i t below under.
      let same : h ≡ g = ground arith in
      at_top (set w (h - p)) h g i (p ∷ seen) same
        (ground (arith, get-set w (h - p) i (omega (arith, r.shape.sized)), r.bits h i e below));
}

distance_twice : (h p : ℕ) → p ≤ h → h - (h - p) ≡ p
distance_twice h p le = omega arith

Agrees : ReplayWindow → List ℕ → ℕ → Option ℕ → Type 0
unfolding accept_after accept_spec
Agrees w seen p t =
    ((accept_after w t p).1 ≡ (accept_spec w.width seen p).1)
    × Represents (accept_after w t p).0 (accept_spec w.width seen p).0
    × ((accept_after w t p).0.width ≡ w.width)

agrees :
    (w : ReplayWindow) (seen : List ℕ) (p : ℕ) (t : Option ℕ)
    → Represents w seen
    → top seen ≡ t
    → Agrees w seen p t
unfolding Agrees accept_after accept_spec
agrees w seen p none r e =
    rw (e, accept_spec) (refl, first-Represents w seen p r e, (set-SameShape (record_at w p) 0).0)
agrees w seen p (some h) r e = elim (Bool-cases (ltb h p)) [
  | inl above ↦
      rw (e, accept_spec, above)
        (
          refl,
          higher-Represents w seen p h r e (ground arith),
          (set-SameShape (record_at (shift_left w (p - h)) p) 0).0
              ∙ (shift_left-SameShape w (p - h)).0,
        )
  | inr below ↦ elim (Bool-cases (leb w.width (h - p))) [
    | inl old ↦ rw (e, accept_spec, below, old) (refl, r, refl)
    | inr recent ↦
        let known : get w (h - p) ≡ contains p seen =
          r.bits h (h - p) e (ground arith) (omega arith)
          ∙ ap (λ (q : ℕ). contains q seen) (distance_twice h p (ground arith)) in
        elim (Bool-cases (contains p seen)) [
          | inl again ↦ rw (e, accept_spec, below, recent, known, again) (refl, r, refl)
          | inr fresh ↦
              rw (e, accept_spec, below, recent, known, fresh)
                (
                  refl,
                  within-Represents w seen p h r e (ground arith) (ground arith),
                  (set-SameShape w (h - p)).0,
                )
        ]
  ]
]

-- One call of `accept` answers as promised, and the window stands for the new list.
pub accept-accept_spec :
    (w : ReplayWindow) (seen : List ℕ) (p : ℕ)
    → Represents w seen
    → ((accept w p).1 ≡ (accept_spec w.width seen p).1)
      × Represents (accept w p).0 (accept_spec w.width seen p).0
      × ((accept w p).0.width ≡ w.width)
unfolding accept Agrees
accept-accept_spec w seen p r =
    subst (Agrees w seen p) (sym r.highest_is) (agrees w seen p (top seen) r refl)
