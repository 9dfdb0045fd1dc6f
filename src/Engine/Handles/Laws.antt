-- ===== src/Engine/Handles/Laws.antt =====
-- The operations of `SessionConversationHandles` of crates/udp2raw-ng-core/src/engine.rs and the
-- relation of its two maps.
use mathlib.Core.Path.{subst}
use udp2raw_ng.Prelude.{
  ℕ, ◌+◌, ◌^◌, ◌<◌, ◌≡◌, ◌≢◌, ◌↔◌, refl, inl, inr, true, false, Option, none, some, arith, ltb,
  ◌==◌, is_some, Bool-cases, Option-cases, Result, ok, err,
}
use udp2raw_ng.Prelude.Maps.{
  lookup, remove, Inverts, insert-Inverts, remove-Inverts, lookup-insert_self, lookup-insert_inv,
  lookup-insert_ne, lookup-remove_self, lookup-remove_inv, lookup-remove_ne,
}
use udp2raw_ng.Errors.{EngineError, conversation_handle_exhausted}
use udp2raw_ng.Engine.Handles.{
  SessionConversationHandles, new_handles, insert_both, allocate, handle_for_or_allocate, bind,
  release,
}

-- Each map answers what the other holds.
pub record Paired (h : SessionConversationHandles) : Type 0 where
  pub there : Inverts h.by_id h.by_handle
  pub back : Inverts h.by_handle h.by_id

pub new_handles-Paired : Paired new_handles
new_handles-Paired = record { there = λ c k e. cc; back = λ k c e. cc }

-- A new pair of a handle and an id, neither of them known.
pub insert_both-Paired :
    (h : SessionConversationHandles) (k c : ℕ)
    → Paired h
    → lookup h.by_handle k ≡ none
    → lookup h.by_id c ≡ none
    → Paired (insert_both h k c)
insert_both-Paired h k c p fresh_k fresh_c = record {
  there = insert-Inverts h.by_id h.by_handle c k p.there fresh_k;
  back = insert-Inverts h.by_handle h.by_id k c p.back fresh_c;
}

unknown : (o : Option ℕ) → is_some o ≡ false → o ≡ none
unknown none e = refl
unknown (some a) e = cc

-- In a table whose maps are inverse, the handle that a peer names is bound to the conversation if
-- and only if neither is in use, and then each is found from the other; otherwise nothing changes.
-- The maps stay inverse.
pub bind-Paired :
    (h : SessionConversationHandles) (k c : ℕ)
    → Paired h
    → Paired (bind h k c).1
      × (((bind h k c).0 ≡ ok tt) ↔ (lookup h.by_handle k ≡ none) × (lookup h.by_id c ≡ none))
      × ((bind h k c).0 ≡ ok tt
          → (lookup (bind h k c).1.by_handle k ≡ some c) × (lookup (bind h k c).1.by_id c ≡ some k))
      × ((bind h k c).0 ≢ ok tt → (bind h k c).1 ≡ h)
unfolding bind
bind-Paired h k c p = elim (Option-cases (lookup h.by_handle k)) [
  | inr (d, e) ↦ rw e (p, (λ x. cc, λ v. cc), λ x. cc, λ x. refl)
  | inl e ↦ elim (Option-cases (lookup h.by_id c)) [
    | inr (j, e1) ↦ rw (e, e1) (p, (λ x. cc, λ v. cc), λ x. cc, λ x. refl)
    | inl e1 ↦
        rw (e, e1)
          (
            insert_both-Paired h k c p e e1,
            (λ x. (refl, refl), λ v. refl),
            λ x. (lookup-insert_self h.by_handle k c, lookup-insert_self h.by_id c k),
            λ x. absurd (x refl),
          )
  ]
]

pub release_unbound :
    (h : SessionConversationHandles) (c : ℕ) → lookup h.by_id c ≡ none → release h c ≡ h
unfolding release
release_unbound h c e = rw (release, e)

pub release_bound :
    (h : SessionConversationHandles) (c k : ℕ)
    → lookup h.by_id c ≡ some k
    → release h c ≡ record h { by_handle = remove h.by_handle k; by_id = remove h.by_id c }
unfolding release
release_bound h c k e = rw (release, e)

-- In a table whose maps are inverse, a conversation that is released has no handle any more, its
-- handle stands for nothing, every other conversation keeps its handle, and the maps stay inverse.
pub release-Paired :
    (h : SessionConversationHandles) (c : ℕ)
    → Paired h
    → Paired (release h c)
      × (lookup (release h c).by_id c ≡ none)
      × ((k : ℕ) → lookup h.by_id c ≡ some k → lookup (release h c).by_handle k ≡ none)
      × ((d : ℕ) → c ≢ d → lookup (release h c).by_id d ≡ lookup h.by_id d)
release-Paired h c p = elim (Option-cases (lookup h.by_id c)) [
  | inl e ↦ rw (release_unbound h c e) (p, e, λ k x. absurd cc, λ d ne. refl)
  | inr (k, e) ↦
      let held = p.there c k e in
      rw (release_bound h c k e) (
        record {
          there = remove-Inverts h.by_id h.by_handle c k p.there held;
          back = remove-Inverts h.by_handle h.by_id k c p.back e;
        },
        lookup-remove_self h.by_id c,
        λ j x. let same : k ≡ j = cc in rw (← same) (lookup-remove_self h.by_handle k),
        λ d ne. lookup-remove_ne h.by_id c d ne,
      )
]

-- What holds of a table whose handles come from `handle_for_or_allocate`.
pub record Allocated (h : SessionConversationHandles) : Type 0 where
  pub paired : Paired h
  pub positive : 0 < h.next_handle
  pub fits : h.next_handle < 2 ^ 32
  pub below : (k c : ℕ) → lookup h.by_handle k ≡ some c → (0 < k) × (k < h.next_handle)

pub new_handles-Allocated : Allocated new_handles
new_handles-Allocated = record {
  paired = new_handles-Paired;
  positive = omega arith;
  fits = omega arith;
  below = λ k c e. cc;
}

-- The next handle is not in use.
next_fresh :
    (h : SessionConversationHandles) → Allocated h → lookup h.by_handle h.next_handle ≡ none
next_fresh h v = elim (Option-cases (lookup h.by_handle h.next_handle)) [
  | inl e ↦ e
  | inr (c, e) ↦ absurd (omega (arith, v.below h.next_handle c e))
]

allocate-Allocated :
    (h : SessionConversationHandles) (c : ℕ)
    → Allocated h
    → lookup h.by_id c ≡ none
    → ltb (h.next_handle + 1) (2 ^ 32) ≡ true
    → Allocated (record (insert_both h h.next_handle c) { next_handle = h.next_handle + 1 })
allocate-Allocated h c v fresh room =
    let raw = h.next_handle in
    let pairs = insert_both-Paired h raw c v.paired (next_fresh h v) fresh in
    record {
      paired = record { there = pairs.there; back = pairs.back };
      positive = omega arith;
      fits = ground arith;
      below = λ k d e. elim (lookup-insert_inv h.by_handle raw k c d e) [
        | inl same ↦ (omega (arith, same.0, v.positive), omega (arith, same.0))
        | inr old ↦ (omega (arith, v.below k d old.1), omega (arith, v.below k d old.1))
      ];
    }

-- A table whose handles all come from `handle_for_or_allocate` gives a conversation a handle and
-- never panics: the handle is a 32-bit number other than 0 which then stands for the conversation
-- in both maps, every other conversation keeps its handle, and the table remains well formed. The
-- one error is that all handles are used up, and it changes nothing.
pub handle_for_or_allocate-Allocated :
    (h : SessionConversationHandles) (c : ℕ)
    → Allocated h
    → (r : Result EngineError ℕ) × (h' : SessionConversationHandles) × (handle_for_or_allocate h c
        ≡ some (r, h'))
      × Allocated h'
      × ((k : ℕ)
          → r ≡ ok k
          → (0 < k)
            × (k < 2 ^ 32)
            × (lookup h'.by_id c ≡ some k)
            × (lookup h'.by_handle k ≡ some c))
      × ((e : EngineError)
          → r ≡ err e
          → (e ≡ conversation_handle_exhausted) × (h.next_handle + 1 ≡ 2 ^ 32) × (h' ≡ h))
      × ((d : ℕ) → c ≢ d → lookup h'.by_id d ≡ lookup h.by_id d)
unfolding handle_for_or_allocate allocate
handle_for_or_allocate-Allocated h c v =
    let raw = h.next_handle in
    elim (Option-cases (lookup h.by_id c)) [
      | inr (k, e) ↦
          let known = v.paired.there c k e in
          let range = v.below k c known in
          (
            ok k,
            h,
            rw (handle_for_or_allocate, e),
            v,
            λ j same.
                let eq : k ≡ j = cc in
                rw (← eq) (range.0, omega (arith, range.1, v.fits), e, known),
            λ x bad. absurd cc,
            λ d ne. refl,
          )
      | inl e ↦ elim (Bool-cases (ltb (raw + 1) (2 ^ 32))) [
        | inl room ↦
            let nonzero : (raw == 0) ≡ false = ground (arith, v.positive) in
            (
              ok raw,
              record (insert_both h raw c) { next_handle = raw + 1 },
              rw (handle_for_or_allocate, e, room, nonzero),
              allocate-Allocated h c v e room,
              λ j same.
                  let eq : raw ≡ j = cc in
                  rw (← eq) (
                    v.positive,
                    v.fits,
                    lookup-insert_self h.by_id c raw,
                    lookup-insert_self h.by_handle raw c,
                  ),
              λ x bad. absurd cc,
              λ d ne. lookup-insert_ne h.by_id c d raw ne,
            )
        | inr full ↦ (
          err conversation_handle_exhausted,
          h,
          rw (handle_for_or_allocate, e, full),
          v,
          λ j bad. absurd cc,
          λ x same. (cc, ground (arith, v.fits), refl),
          λ d ne. refl,
        )
      ]
    ]

-- Releasing keeps the table well formed too.
pub release-Allocated :
    (h : SessionConversationHandles) (c : ℕ) → Allocated h → Allocated (release h c)
release-Allocated h c v = elim (Option-cases (lookup h.by_id c)) [
  | inl e ↦ rw (release_unbound h c e) v
  | inr (k, e) ↦
      let pairs : Paired (record h { by_handle = remove h.by_handle k; by_id = remove h.by_id c }) =
        subst Paired (release_bound h c k e) (release-Paired h c v.paired).0 in
      rw (release_bound h c k e) (record {
        paired = record { there = pairs.there; back = pairs.back };
        positive = v.positive;
        fits = v.fits;
        below = λ j d x. v.below j d (lookup-remove_inv h.by_handle k j d x).1;
      })
]
