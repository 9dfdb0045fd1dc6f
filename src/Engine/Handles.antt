-- ===== src/Engine/Handles.antt =====
-- `SessionConversationHandles` of crates/udp2raw-ng-core/src/engine.rs: which handle on the wire
-- stands for which conversation of a session. Handles and ids are 32-bit numbers other than 0.
use udp2raw_ng.Prelude.{
  ℕ, ◌+◌, ◌^◌, Bool, true, false, not, ◌||◌, Option, none, some, List, [], ◌∷◌, ltb, ◌==◌,
  if◌then◌else◌, is_some, Result, ok, err,
}
use udp2raw_ng.Prelude.Maps.{Map, lookup, insert, remove}
use udp2raw_ng.Errors.{EngineError, conversation_handle_exhausted, unknown_conversation}
pub mod Laws
pub mod Reuse
pub mod Examples

pub record SessionConversationHandles : Type 0 where
  pub by_handle : Map ℕ
  pub by_id : Map ℕ
  pub next_handle : ℕ

abbrev pub new_handles : SessionConversationHandles
new_handles = record { by_handle = []; by_id = []; next_handle = 1 }

-- Both maps, with one more handle.
abbrev pub insert_both : SessionConversationHandles → ℕ → ℕ → SessionConversationHandles
insert_both h handle conversation_id = record h {
  by_handle = insert h.by_handle handle conversation_id;
  by_id = insert h.by_id conversation_id handle;
}

-- The next handle of `handle_for_or_allocate`, for a conversation without one.
unfoldable pub allocate :
    SessionConversationHandles → ℕ → Option (Result EngineError ℕ × SessionConversationHandles)
allocate h conversation_id =
    let raw = h.next_handle in
    if ltb (raw + 1) (2 ^ 32)
    then (if raw == 0
        then none
        else some (ok raw, record (insert_both h raw conversation_id) { next_handle = raw + 1 }))
    else some (err conversation_handle_exhausted, h)

-- `handle_for_or_allocate`; a panic is `none`.
unfoldable pub handle_for_or_allocate :
    SessionConversationHandles → ℕ → Option (Result EngineError ℕ × SessionConversationHandles)
handle_for_or_allocate h conversation_id = elim (lookup h.by_id conversation_id) [
  | some handle ↦ some (ok handle, h)
  | none ↦ allocate h conversation_id
]

abbrev pub id_for : SessionConversationHandles → ℕ → Option ℕ
id_for h handle = lookup h.by_handle handle

unfoldable pub bind :
    SessionConversationHandles → ℕ → ℕ → Result EngineError (Unit {0}) × SessionConversationHandles
bind h handle conversation_id =
    if is_some (lookup h.by_handle handle) || is_some (lookup h.by_id conversation_id)
    then (err unknown_conversation, h)
    else (ok tt, insert_both h handle conversation_id)

abbrev pub handle_for : SessionConversationHandles → ℕ → Option ℕ
handle_for h conversation_id = lookup h.by_id conversation_id

-- `remove`
unfoldable pub release : SessionConversationHandles → ℕ → SessionConversationHandles
release h conversation_id = elim (lookup h.by_id conversation_id) [
  | none ↦ h
  | some handle ↦ record h {
    by_handle = remove h.by_handle handle;
    by_id = remove h.by_id conversation_id;
  }
]
