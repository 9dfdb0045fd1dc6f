-- ===== src/Engine/Handles/Examples.antt =====
-- A table of handles in use, and its theorems there.
use udp2raw_ng.Prelude.{ℕ, ◌+◌, ◌^◌, ◌<◌, ◌≡◌, ◌≢◌, ◌↔◌, refl, none, some, [], ◌∷◌, Result, ok, err}
use udp2raw_ng.Prelude.Maps.{lookup}
use udp2raw_ng.Errors.{EngineError, conversation_handle_exhausted}
use udp2raw_ng.Engine.Handles.{
  SessionConversationHandles, new_handles, allocate, handle_for_or_allocate, bind, release,
}
use udp2raw_ng.Engine.Handles.Laws.{
  Paired, Allocated, new_handles-Paired, new_handles-Allocated, bind-Paired, release-Paired,
  handle_for_or_allocate-Allocated,
}
use udp2raw_ng.Engine.Handles.Reuse.{
  stay, then_allocate, then_release, never_reused, Steps-Allocated,
}

-- Conversation 70 has handle 1.
abbrev one : SessionConversationHandles
one = record { by_handle = (1, 70) ∷ []; by_id = (70, 1) ∷ []; next_handle = 2 }

abbrev none_left : SessionConversationHandles
none_left = record { by_handle = []; by_id = []; next_handle = 2 }

abbrev two : SessionConversationHandles
two = record { by_handle = (2, 71) ∷ []; by_id = (71, 2) ∷ []; next_handle = 3 }

allocated : handle_for_or_allocate new_handles 70 ≡ some (ok 1, one)
unfolding handle_for_or_allocate allocate
allocated = refl

released : release one 70 ≡ none_left
unfolding release
released = refl

allocated_again : handle_for_or_allocate (release one 70) 71 ≡ some (ok 2, two)
unfolding handle_for_or_allocate allocate release
allocated_again = refl

one-Allocated : Allocated one
one-Allocated =
    (Steps-Allocated new_handles one
      (then_allocate new_handles new_handles one 70 (ok 1) (stay new_handles) allocated)
      new_handles-Allocated).0

unbound : lookup (release one 70).by_id 71 ≡ none
unfolding release
unbound = refl

never_reused_example : 1 < 2
never_reused_example =
    never_reused one (release one 70) two 1 70 71 2 one-Allocated refl
      (then_release one one 70 (stay one)) unbound allocated_again

bind-Paired_example :
    Paired (bind new_handles 5 70).1
    × (((bind new_handles 5 70).0 ≡ ok tt)
        ↔ (lookup new_handles.by_handle 5 ≡ none) × (lookup new_handles.by_id 70 ≡ none))
    × ((bind new_handles 5 70).0 ≡ ok tt
        → (lookup (bind new_handles 5 70).1.by_handle 5 ≡ some 70)
          × (lookup (bind new_handles 5 70).1.by_id 70 ≡ some 5))
    × ((bind new_handles 5 70).0 ≢ ok tt → (bind new_handles 5 70).1 ≡ new_handles)
bind-Paired_example = bind-Paired new_handles 5 70 new_handles-Paired

release-Paired_example :
    Paired (release one 70)
    × (lookup (release one 70).by_id 70 ≡ none)
    × ((k : ℕ) → lookup one.by_id 70 ≡ some k → lookup (release one 70).by_handle k ≡ none)
    × ((d : ℕ) → 70 ≢ d → lookup (release one 70).by_id d ≡ lookup one.by_id d)
release-Paired_example = release-Paired one 70 one-Allocated.paired

handle_for_or_allocate-Allocated_example :
    (r : Result EngineError ℕ) × (h' : SessionConversationHandles) × (handle_for_or_allocate one 71
      ≡ some (r, h'))
    × Allocated h'
    × ((k : ℕ)
        → r ≡ ok k
        → (0 < k)
          × (k < 2 ^ 32)
          × (lookup h'.by_id 71 ≡ some k)
          × (lookup h'.by_handle k ≡ some 71))
    × ((e : EngineError)
        → r ≡ err e
        → (e ≡ conversation_handle_exhausted) × (one.next_handle + 1 ≡ 2 ^ 32) × (h' ≡ one))
    × ((d : ℕ) → 71 ≢ d → lookup h'.by_id d ≡ lookup one.by_id d)
handle_for_or_allocate-Allocated_example = handle_for_or_allocate-Allocated one 71 one-Allocated
