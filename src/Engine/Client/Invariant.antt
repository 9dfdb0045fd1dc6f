-- ===== src/Engine/Client/Invariant.antt =====
-- The invariant of `ClientEngine` of crates/udp2raw-ng-core/src/engine.rs.
use udp2raw_ng.Prelude.{
  ℕ, ◌≤◌, ◌≡◌, ◌≢◌, sym, ◌∙◌, ap, inl, inr, Option, none, some, [], arith, length, ◌==◌, ==_iff,
  Bool-cases,
}
use mathlib.Core.Path.{subst}
use udp2raw_ng.Prelude.Maps.{
  Map, lookup, insert, remove, lookup-insert_self, lookup-insert_ne, lookup-insert_inv,
  lookup-remove_inv, lookup-remove_ne, IsDistinct, insert-IsDistinct, remove-IsDistinct,
}
use udp2raw_ng.Config.Laws.{IsValid}
use udp2raw_ng.Engine.Handles.Laws.{Allocated}
use udp2raw_ng.Engine.Events.{SessionState, idle, handshaking, ready, reconnecting, closed}
use udp2raw_ng.Engine.Client.{
  ClientEngine, ClientConversation, ClientHandshake, ClientHandshakePhase, ClientSession,
  awaiting_server_hello, awaiting_server_ack,
}

-- A handshake has made a session exactly if it waits for the acknowledgement.
abbrev pub Made : ClientHandshakePhase → Option ClientSession → Type 0
Made awaiting_server_hello session = session ≡ none
Made (awaiting_server_ack hello bytes) session = (x : ClientSession) × (session ≡ some x)

abbrev pub Exchanging : Option ClientHandshake → Option ClientSession → Type 0
Exchanging none session = ⊥
Exchanging (some handshake) session = Made handshake.phase session

-- Which of the handshake and the session there are in each state.
abbrev pub InPhase : SessionState → Option ClientHandshake → Option ClientSession → Type 0
InPhase idle handshake session = (handshake ≡ none) × (session ≡ none)
InPhase handshaking handshake session = Exchanging handshake session
InPhase ready handshake session = (handshake ≡ none) × ((x : ClientSession) × (session ≡ some x))
InPhase reconnecting handshake session = Exchanging handshake session
InPhase closed handshake session = (handshake ≡ none) × (session ≡ none)

abbrev pub SessionAllocated : Option ClientSession → Type 0
SessionAllocated none = Unit {0}
SessionAllocated (some session) = Allocated session.handles

abbrev pub Entry : Map ClientConversation → ℕ → ℕ → Type 0
Entry by_peer peer id = (x : ClientConversation) × (lookup by_peer peer ≡ some x) × (x.id ≡ id)

-- The conversations by their local peers, and the local peers by the ids of the conversations.
pub record Linked (by_peer : Map ClientConversation) (by_id : Map ℕ) : Type 0 where
  pub distinct : IsDistinct by_peer
  -- Every id names a local peer whose conversation has that id.
  pub owner : (id peer : ℕ) → lookup by_id id ≡ some peer → Entry by_peer peer id

pub record IsGood (s : ClientEngine) : Type 0 where
  pub valid : IsValid s.config
  pub phase : InPhase s.state s.handshake s.session
  pub allocated : SessionAllocated s.session
  pub room : length s.by_peer ≤ s.config.max_conversations
  pub waiting : length s.queued_datagrams ≤ s.config.reconnect_queue_capacity
  pub linked : Linked s.by_peer s.by_id

some-injective : {A : Type 0} {a b : A} → some a ≡ some b → a ≡ b
some-injective e = cc

none_ne_some : {A : Type 0} {a : A} → ◌≢◌ {A = Option A} none (some a)
none_ne_some e = cc

pub Linked-none : Linked [] []
Linked-none = record { distinct = tt; owner = λ id peer e. absurd cc }

-- A changed conversation under the same peer and id.
pub Linked-update :
    (by_peer : Map ClientConversation) (by_id : Map ℕ) (peer : ℕ) (x y : ClientConversation)
    → Linked by_peer by_id
    → lookup by_peer peer ≡ some x
    → y.id ≡ x.id
    → Linked (insert by_peer peer y) by_id
Linked-update by_peer by_id peer x y h found same = record {
  distinct = insert-IsDistinct by_peer peer y h.distinct;
  owner = λ id other e.
      let (z, there, own) = h.owner id other e in
      elim (Bool-cases (peer == other)) [
        | inl t ↦
            let equal = (==_iff peer other).0 t in
            let agree : x ≡ z = some-injective (sym found ∙ ap (lookup by_peer) equal ∙ there) in
            let owned = same ∙ ap (λ (u : ClientConversation). u.id) agree ∙ own in
            subst (λ (k : ℕ). Entry (insert by_peer peer y) k id) equal
              (y, lookup-insert_self by_peer peer y, owned)
        | inr f ↦
            let differ : peer ≢ other = ground arith in
            (z, lookup-insert_ne by_peer peer other y differ ∙ there, own)
      ];
}

-- A new conversation.
pub Linked-open :
    (by_peer : Map ClientConversation) (by_id : Map ℕ) (peer : ℕ) (y : ClientConversation)
    → Linked by_peer by_id
    → lookup by_peer peer ≡ none
    → Linked (insert by_peer peer y) (insert by_id y.id peer)
Linked-open by_peer by_id peer y h fresh = record {
  distinct = insert-IsDistinct by_peer peer y h.distinct;
  owner = λ id other e. elim (lookup-insert_inv by_id y.id id peer other e) [
    | inl new ↦
        subst (λ (k : ℕ). Entry (insert by_peer peer y) k id) new.1
          (y, lookup-insert_self by_peer peer y, new.0)
    | inr old ↦
        let (z, there, own) = h.owner id other old.1 in
        let differ : peer ≢ other =
          λ equal. none_ne_some (sym fresh ∙ ap (lookup by_peer) equal ∙ there) in
        (z, lookup-insert_ne by_peer peer other y differ ∙ there, own)
  ];
}

-- What the conversation of a peer is, if there is one.
abbrev pub Owns : Map ClientConversation → ℕ → ℕ → Type 0
Owns by_peer peer id = (x : ClientConversation) → lookup by_peer peer ≡ some x → x.id ≡ id

pub Entry-Owns :
    (by_peer : Map ClientConversation) (peer id : ℕ) → Entry by_peer peer id → Owns by_peer peer id
Entry-Owns by_peer peer id (z, there, own) x e =
    let agree : x ≡ z = some-injective (sym e ∙ there) in
    ap (λ (u : ClientConversation). u.id) agree ∙ own

-- A conversation that is removed under its peer and id.
pub Linked-remove :
    (by_peer : Map ClientConversation) (by_id : Map ℕ) (peer id : ℕ)
    → Linked by_peer by_id
    → Owns by_peer peer id
    → Linked (remove by_peer peer) (remove by_id id)
Linked-remove by_peer by_id peer id h owned = record {
  distinct = remove-IsDistinct by_peer peer h.distinct;
  owner = λ other_id other e.
      let (differ_id, old) = lookup-remove_inv by_id id other_id other e in
      let (z, there, own) = h.owner other_id other old in
      let differ : peer ≢ other =
        λ equal. differ_id (sym (owned z (ap (lookup by_peer) equal ∙ there)) ∙ own) in
      (z, lookup-remove_ne by_peer peer other differ ∙ there, own);
}
