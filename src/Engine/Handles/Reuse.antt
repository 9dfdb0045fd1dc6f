-- ===== src/Engine/Handles/Reuse.antt =====
-- Sequences of allocations and releases on one `SessionConversationHandles` of
-- crates/udp2raw-ng-core/src/engine.rs.
use mathlib.Core.Path.{subst}
use udp2raw_ng.Prelude.{
  ℕ, ◌+◌, ◌^◌, ◌≤◌, ◌<◌, ◌≡◌, refl, ap, inl, inr, none, some, arith, ltb, ◌==◌, Bool-cases,
  Option-cases, Result, ok, err,
}
use udp2raw_ng.Prelude.Maps.{lookup}
use udp2raw_ng.Errors.{EngineError, conversation_handle_exhausted}
use udp2raw_ng.Engine.Handles.{
  SessionConversationHandles, insert_both, allocate, handle_for_or_allocate, release,
}
use udp2raw_ng.Engine.Handles.Laws.{
  Allocated, handle_for_or_allocate-Allocated, release-Allocated, release_unbound, release_bound,
}

-- What an engine does with a table that it allocates from, in any order.
pub data Steps : SessionConversationHandles → SessionConversationHandles → Type 0 where
  stay : (h : SessionConversationHandles) → Steps h h
  then_allocate :
      (h m n : SessionConversationHandles) (c : ℕ) (r : Result EngineError ℕ)
      → Steps h m
      → handle_for_or_allocate m c ≡ some (r, n)
      → Steps h n
  then_release : (h m : SessionConversationHandles) (c : ℕ) → Steps h m → Steps h (release m c)

-- Allocating never lowers the next handle, and a new handle is the next one.
allocate_next :
    (h h' : SessionConversationHandles) (c : ℕ) (r : Result EngineError ℕ)
    → handle_for_or_allocate h c ≡ some (r, h')
    → (h.next_handle ≤ h'.next_handle)
      × (lookup h.by_id c ≡ none → (k : ℕ) → r ≡ ok k → k ≡ h.next_handle)
unfolding handle_for_or_allocate allocate
allocate_next h h' c r e = elim (Option-cases (lookup h.by_id c)) [
  | inr (k, known) ↦
      let out : handle_for_or_allocate h c ≡ some (ok k, h) = rw (handle_for_or_allocate, known) in
      let same : h ≡ h' = cc in
      (
        omega (arith, ap (λ (t : SessionConversationHandles). t.next_handle) same),
        λ fresh. absurd cc,
      )
  | inl fresh ↦
      let raw = h.next_handle in
      elim (Bool-cases (ltb (raw + 1) (2 ^ 32))) [
        | inr full ↦
            let out : handle_for_or_allocate h c ≡ some (err conversation_handle_exhausted, h) =
              rw (handle_for_or_allocate, fresh, full) in
            let same : h ≡ h' = cc in
            (
              omega (arith, ap (λ (t : SessionConversationHandles). t.next_handle) same),
              λ x k bad. absurd cc,
            )
        | inl room ↦ elim (Bool-cases (raw == 0)) [
          | inl zero_handle ↦
              let out : handle_for_or_allocate h c ≡ none =
                rw (handle_for_or_allocate, fresh, room, zero_handle) in
              absurd cc
          | inr nonzero ↦
              let next = record (insert_both h raw c) { next_handle = raw + 1 } in
              let out : handle_for_or_allocate h c ≡ some (ok raw, next) =
                rw (handle_for_or_allocate, fresh, room, nonzero) in
              let same : next ≡ h' = cc in
              (
                omega (arith, ap (λ (t : SessionConversationHandles). t.next_handle) same),
                λ x k given. cc,
              )
        ]
      ]
]

release_next : (h : SessionConversationHandles) (c : ℕ) → (release h c).next_handle ≡ h.next_handle
release_next h c = elim (Option-cases (lookup h.by_id c)) [
  | inl e ↦ ap (λ (t : SessionConversationHandles). t.next_handle) (release_unbound h c e)
  | inr (k, e) ↦ ap (λ (t : SessionConversationHandles). t.next_handle) (release_bound h c k e)
]

pub Steps-Allocated :
    (h h' : SessionConversationHandles)
    → Steps h h'
    → Allocated h
    → Allocated h' × (h.next_handle ≤ h'.next_handle)
Steps-Allocated h h' (stay h0) v = (v, omega arith)
Steps-Allocated h h' (then_allocate h0 m n c r s e) v =
    let (held, low) = Steps-Allocated h m s v in
    let (r1, h1, e1, v1, a1, a2, a3) = handle_for_or_allocate-Allocated m c held in
    let same : h1 ≡ h' = cc in
    (subst Allocated same v1, omega (arith, low, (allocate_next m h' c r e).0))
Steps-Allocated h h' (then_release h0 m c s) v =
    let (held, low) = Steps-Allocated h m s v in
    (release-Allocated m c held, omega (arith, low, release_next m c))

-- A handle of a well-formed table that stood for a conversation is given to no other one later on,
-- whatever was allocated and released in between: a new handle is greater than every handle in use
-- before.
pub never_reused :
    (h m n : SessionConversationHandles) (k c d j : ℕ)
    → Allocated h
    → lookup h.by_handle k ≡ some c
    → Steps h m
    → lookup m.by_id d ≡ none
    → handle_for_or_allocate m d ≡ some (ok j, n)
    → k < j
never_reused h m n k c d j v used s fresh e = omega (
  arith,
  v.below k c used,
  (Steps-Allocated h m s v).1,
  (allocate_next m n d (ok j) e).1 fresh j refl,
)
