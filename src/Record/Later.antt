-- ===== src/Record/Later.antt =====
-- A record that comes again at any later time, at `RecordOpener::open` of
-- crates/udp2raw-ng-core/src/record.rs.
use mathlib.Core.Path.{subst}
use udp2raw_ng.Prelude.{
  ℕ, ◌+◌, ◌≤◌, ◌<◌, ◌≡◌, ◌⊎◌, refl, sym, ◌∙◌, ap, inl, inr, some, List, [], ◌∷◌, Result, ok, err,
  Result-cases,
}
use udp2raw_ng.Errors.{RecordError, duplicate, too_old}
use udp2raw_ng.Crypto.{Primitives}
use udp2raw_ng.Replay.{accept}
use udp2raw_ng.Replay.Refinement.{Represents}
use udp2raw_ng.Replay.Later.{
  Remembers, accept-Remembers, accepted-Remembers, AgainAt, accept-AgainAt,
}
use udp2raw_ng.Record.{AuthenticatedFrame, RecordOpener, authenticate, admit, open_record}
use udp2raw_ng.Record.Delivery.{authenticate-replay}

-- The answer to a record with the packet number `n` that was delivered before: a duplicate while the
-- number lies in the replay window, and too old once it lies below it.
abbrev pub IsReplay : ℕ → RecordOpener → Result RecordError AuthenticatedFrame → Type 0
IsReplay n o answer =
    (h : ℕ) × (o.replay.highest ≡ some h)
    × (((answer ≡ err (RecordError.replay duplicate)) × (h < n + o.replay.width))
        ⊎ ((answer ≡ err (RecordError.replay too_old)) × (n + o.replay.width ≤ h)))

module _ (c : Primitives) where
  -- The opener after some datagrams, delivered or refused.
  abbrev pub open_all : List (List ℕ) → RecordOpener → RecordOpener
  open_all [] o = o
  open_all (bytes ∷ rest) o = open_all rest (open_record c o bytes).0

  -- An opener that is another one but for the window, which remembers a number.
  record Follows (n : ℕ) (o p : RecordOpener) : Type 0 where
    pub same : p ≡ record o { replay = p.replay }
    pub remembers : Remembers n o.replay.width p.replay

  admit-Follows :
      (n : ℕ) (o p : RecordOpener) (r : Result RecordError (ℕ × AuthenticatedFrame))
      → Follows n o p
      → Follows n o (admit c p r).0
  unfolding admit
  admit-Follows n o p (err e) f = f
  admit-Follows n o p (ok (m, frame)) f = record {
    same = ap (λ (q : RecordOpener). record q { replay = (accept p.replay m).0 }) f.same;
    remembers = accept-Remembers n o.replay.width m p.replay f.remembers;
  }

  open_all-Follows :
      (n : ℕ) (o p : RecordOpener) (between : List (List ℕ))
      → Follows n o p
      → Follows n o (open_all between p)
  unfolding open_record
  open_all-Follows n o p [] f = f
  open_all-Follows n o p (bytes ∷ rest) f =
      open_all-Follows n o (open_record c p bytes).0 rest
        (admit-Follows n o p (authenticate c p bytes) f)

  again :
      (n : ℕ) (frame : AuthenticatedFrame) (p : RecordOpener)
      → AgainAt n p.replay (accept p.replay n).1
      → IsReplay n p (admit c p (ok (n, frame))).1
  unfolding admit
  again n frame p (h, highest, inl (answer, near)) = (h, highest, inl (rw answer, near))
  again n frame p (h, highest, inr (answer, far)) = (h, highest, inr (rw answer, far))

  later-IsReplay :
      (n : ℕ) (frame : AuthenticatedFrame) (o p : RecordOpener) (bytes : List ℕ)
      → authenticate c o bytes ≡ ok (n, frame)
      → Follows n o p
      → IsReplay n p (open_record c p bytes).1
  unfolding open_record
  later-IsReplay n frame o p bytes e f =
      let read : authenticate c p bytes ≡ ok (n, frame) =
        ap (λ (q : RecordOpener). authenticate c q bytes) f.same
        ∙ authenticate-replay c o bytes p.replay
        ∙ e in
      rw read (again n frame p (accept-AgainAt n o.replay.width p.replay f.remembers))

  admitted-Follows :
      (n : ℕ) (frame f : AuthenticatedFrame) (o : RecordOpener) (seen : List ℕ)
      → Represents o.replay seen
      → (admit c o (ok (n, frame))).1 ≡ ok f
      → (frame ≡ f) × Follows n o (admit c o (ok (n, frame))).0
  unfolding admit
  admitted-Follows n frame f o seen r h = elim (Result-cases (accept o.replay n).1) [
    | inl (u, fine) ↦
        let given : ◌≡◌ {A = Result RecordError AuthenticatedFrame} (ok frame) (ok f) =
          rw fine at h in
        (cc, record { same = refl; remembers = accepted-Remembers n o.replay seen r fine })
    | inr (x, bad) ↦ absurd (cc (rw bad at h))
  ]

  -- When the replay window stands for a set of accepted numbers and a record was delivered, the same
  -- bytes are refused whenever they come again, whatever datagrams come in between: as a duplicate
  -- while their packet number lies in the window, and as too old once the highest number accepted has
  -- left it behind by the width.
  pub open_record_later :
      (o : RecordOpener) (bytes : List ℕ) (between : List (List ℕ)) (seen : List ℕ)
      (f : AuthenticatedFrame)
      → Represents o.replay seen
      → (open_record c o bytes).1 ≡ ok f
      → (n : ℕ) × (authenticate c o bytes ≡ ok (n, f))
        × IsReplay n
            (open_all between (open_record c o bytes).0)
            (open_record c (open_all between (open_record c o bytes).0) bytes).1
  unfolding open_record
  open_record_later o bytes between seen f r h = elim (Result-cases (authenticate c o bytes)) [
    | inr (x, e) ↦ absurd (cc (rw e at h))
    | inl ((n, frame), e) ↦
        let given : (admit c o (ok (n, frame))).1 ≡ ok f = rw e at h in
        let (same, kept) = admitted-Follows n frame f o seen r given in
        let after : Follows n o (admit c o (authenticate c o bytes)).0 =
          subst (λ (a : Result RecordError (ℕ × AuthenticatedFrame)). Follows n o (admit c o a).0)
            (sym e) kept in
        let reached = open_all-Follows n o (admit c o (authenticate c o bytes)).0 between after in
        (
          n,
          e ∙ ap (λ (x : AuthenticatedFrame). ok (n, x)) same,
          later-IsReplay n frame o _ bytes e reached,
        )
  ]
