-- ===== src/Record/Delivery.antt =====
-- When `RecordOpener::open` of crates/udp2raw-ng-core/src/record.rs changes its state, and how
-- often it delivers a record.
use udp2raw_ng.Prelude.{ℕ, ◌≡◌, refl, ◌∙◌, inl, inr, List, Result, ok, err, Result-cases}
use udp2raw_ng.Errors.{RecordError, duplicate}
use udp2raw_ng.Crypto.{Primitives}
use udp2raw_ng.Replay.{ReplayWindow, accept}
use udp2raw_ng.Replay.Refinement.{Represents}
use udp2raw_ng.Replay.Runs.{accept-err, accept_twice}
use udp2raw_ng.Record.{AuthenticatedFrame, RecordOpener, authenticate, admit, open_record}

module _ (c : Primitives) (o : RecordOpener) (bytes : List ℕ) where
  admit-err :
      (r : Result RecordError (ℕ × AuthenticatedFrame)) (e : RecordError)
      → (admit c o r).1 ≡ err e
      → (admit c o r).0 ≡ o
  unfolding admit
  admit-err (err x) e h = refl
  admit-err (ok (n, frame)) e h = elim (Result-cases (accept o.replay n).1) [
    | inl (u, fine) ↦ absurd (impossible fine)
    | inr (x, bad) ↦ λ i. record o { replay = accept-err o.replay n x bad i }
  ]
    where
      impossible : {u : Unit {0}} → (accept o.replay n).1 ≡ ok u → ⊥
      impossible fine = cc (rw fine at h)

  -- A record that is refused, for whatever reason, leaves the opener as it was, its replay window
  -- included.
  pub open_record-err :
      (e : RecordError) → (open_record c o bytes).1 ≡ err e → (open_record c o bytes).0 ≡ o
  unfolding open_record
  open_record-err e h = admit-err (authenticate c o bytes) e h

  pub authenticate-replay :
      (w : ReplayWindow) → authenticate c (record o { replay = w }) bytes ≡ authenticate c o bytes
  unfolding authenticate
  authenticate-replay w = refl

  admit_twice :
      (n : ℕ) (frame f : AuthenticatedFrame) (seen : List ℕ)
      → Represents o.replay seen
      → (admit c o (ok (n, frame))).1 ≡ ok f
      → (admit c (admit c o (ok (n, frame))).0 (ok (n, frame))).1
        ≡ err (RecordError.replay duplicate)
  unfolding admit
  admit_twice n frame f seen r h = elim (Result-cases (accept o.replay n).1) [
    | inl (u, fine) ↦ rw (accept_twice o.replay seen n r fine)
    | inr (x, bad) ↦ cc (rw bad at h)
  ]

  admit_again :
      (a : Result RecordError (ℕ × AuthenticatedFrame)) (n : ℕ) (frame f : AuthenticatedFrame)
      (seen : List ℕ)
      → authenticate c o bytes ≡ a
      → a ≡ ok (n, frame)
      → Represents o.replay seen
      → (admit c o a).1 ≡ ok f
      → (admit c (admit c o a).0 (authenticate c (admit c o a).0 bytes)).1
        ≡ err (RecordError.replay duplicate)
  unfolding admit
  admit_again a n frame f seen e fine r h =
      let again = authenticate-replay (accept o.replay n).0 ∙ e ∙ fine in
      rw (fine, again) (admit_twice n frame f seen r (rw fine at h))

  -- When the replay window stands for a set of accepted numbers, a record that was delivered is
  -- refused as a duplicate when the same bytes come again next.
  pub open_record_twice :
      (seen : List ℕ) (f : AuthenticatedFrame)
      → Represents o.replay seen
      → (open_record c o bytes).1 ≡ ok f
      → (open_record c (open_record c o bytes).0 bytes).1 ≡ err (RecordError.replay duplicate)
  unfolding open_record admit
  open_record_twice seen f r h = elim (Result-cases (authenticate c o bytes)) [
    | inl ((n, frame), e) ↦ admit_again (authenticate c o bytes) n frame f seen refl e r h
    | inr (x, e) ↦ cc (rw e at h)
  ]
