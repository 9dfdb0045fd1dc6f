-- ===== src/Engine/Client/Sends.antt =====
-- What `handle_local` and the records of `ClientEngine` of crates/udp2raw-ng-core/src/engine.rs
-- keep.
use udp2raw_ng.Prelude.{
  ℕ, ◌≡◌, refl, inl, inr, true, not, Option, none, some, List, arith, leb, Option-cases, length,
}
use udp2raw_ng.Prelude.Maps.{lookup, insert, length-remove, length-remove_found}
use udp2raw_ng.Crypto.{Primitives}
use udp2raw_ng.Protocol.{FrameType, data_frame}
use udp2raw_ng.Entropy.{generate_conversation}
use udp2raw_ng.Engine.Events.{TunnelAction}
use udp2raw_ng.Engine.Monad.{Outcome}
use udp2raw_ng.Engine.Rules.{Post, Post-bind, Post-weaken, Post-require, Post-lift}
use udp2raw_ng.Engine.Client.{ClientEngine, ClientConversation}
use udp2raw_ng.Engine.Client.Local.{
  send_record, conversation_of, draw_conversation, opened, send_local,
}
use udp2raw_ng.Engine.Client.Invariant.{IsGood, Linked-update, Linked-open}
use udp2raw_ng.Engine.Client.Steps.{
  OnlySends, send_record-OnlySends, Calm, Calm-refl, Calm-trans, Calm-sends,
}

-- Other random numbers.
IsGood-entropy :
    (s : ClientEngine) (e : List (Option (List ℕ))) → IsGood s → IsGood (record s { entropy = e })
IsGood-entropy s e g = record {
  valid = g.valid;
  phase = g.phase;
  allocated = g.allocated;
  room = g.room;
  waiting = g.waiting;
  linked = g.linked;
}

-- A changed conversation of a local peer.
pub IsGood-update :
    (s : ClientEngine) (peer : ℕ) (x y : ClientConversation)
    → IsGood s
    → lookup s.by_peer peer ≡ some x
    → y.id ≡ x.id
    → IsGood (record s { by_peer = insert s.by_peer peer y })
IsGood-update s peer x y g found same = record {
  valid = g.valid;
  phase = g.phase;
  allocated = g.allocated;
  room = omega (arith, g.room, length-remove_found s.by_peer peer x found);
  waiting = g.waiting;
  linked = Linked-update s.by_peer s.by_id peer x y g.linked found same;
}

IsGood-opened :
    (s : ClientEngine) (peer id now : ℕ)
    → IsGood s
    → lookup s.by_peer peer ≡ none
    → not (leb s.config.max_conversations (length s.by_peer)) ≡ true
    → IsGood (opened peer id now s)
IsGood-opened s peer id now g fresh space = record {
  valid = g.valid;
  phase = g.phase;
  allocated = g.allocated;
  room = ground (arith, length-remove s.by_peer peer);
  waiting = g.waiting;
  linked =
      Linked-open s.by_peer s.by_id peer
        (record { id = id; last_activity = now; resumption = none }) g.linked fresh;
}

conversation_of-Calm :
    (peer now : ℕ) (s : ClientEngine)
    → IsGood s
    → Post (λ a t. Calm s t) (λ t. Calm s t) (conversation_of peer now s)
unfolding conversation_of draw_conversation
conversation_of-Calm peer now s g =
    let Q : ℕ × List TunnelAction → ClientEngine → Type 0 = λ b u. Calm s u in
    let E : ClientEngine → Type 0 = λ u. Calm s u in
    elim (Option-cases (lookup s.by_peer peer)) [
      | inr (x, e) ↦
          rw (conversation_of, e)
            (record {
              good = IsGood-update s peer x (record x { last_activity = now }) g e refl;
              config_same = refl;
              state_same = refl;
              queue_same = refl;
              received_same = refl;
            })
      | inl e ↦
          let drawn = generate_conversation s.entropy in
          let s' : ClientEngine = record s { entropy = drawn.1 } in
          let g' = IsGood-entropy s drawn.1 g in
          let calm : Calm s s' = record {
            good = g';
            config_same = refl;
            state_same = refl;
            queue_same = refl;
            received_same = refl;
          } in
          rw (conversation_of, e)
            (Post-require Q E (not (leb s.config.max_conversations (length s.by_peer))) _ _ s
              (Calm-refl s g)
              λ space.
                Post-lift Q E (λ f. f) drawn.0 _ s' calm
                  λ id given. record {
                    good = IsGood-opened s' peer id now g' e space;
                    config_same = refl;
                    state_same = refl;
                    queue_same = refl;
                    received_same = refl;
                  })
    ]

-- What follows a part that was calm.
pub Calm-then :
    {A : Type 0} (s t : ClientEngine) (r : Outcome A × ClientEngine)
    → Calm s t
    → Post (λ a u. Calm t u) (λ u. Calm t u) r
    → Post (λ a u. Calm s u) (λ u. Calm s u) r
Calm-then s t r p h =
    Post-weaken (λ a u. Calm s u) (λ u. Calm s u) (λ a u. Calm t u) (λ u. Calm t u) r h
      (λ a u q. Calm-trans s t u p q) (λ u q. Calm-trans s t u p q)

module _ (c : Primitives) where
  pub send_record-Calm :
      (t : FrameType) (id : ℕ) (plaintext : List ℕ) (s : ClientEngine)
      → IsGood s
      → Post (λ b u. Calm s u) (λ u. Calm s u) (send_record c t id plaintext s)
  send_record-Calm t id plaintext s g =
      Post-weaken (λ b u. Calm s u) (λ u. Calm s u) (λ b u. OnlySends s u) (λ u. OnlySends s u)
        (send_record c t id plaintext s) (send_record-OnlySends c t id plaintext s g.allocated)
        (λ b u o. Calm-sends s u g o) (λ u o. Calm-sends s u g o)

  pub send_local-Calm :
      (peer : ℕ) (payload : List ℕ) (now : ℕ) (s : ClientEngine)
      → IsGood s
      → Post (λ a t. Calm s t) (λ t. Calm s t) (send_local c peer payload now s)
  unfolding send_local
  send_local-Calm peer payload now s g =
      let Q : List TunnelAction → ClientEngine → Type 0 = λ b u. Calm s u in
      let E : ClientEngine → Type 0 = λ u. Calm s u in
      Post-bind Q E (λ a t. Calm s t) (conversation_of peer now s) _
        (conversation_of-Calm peer now s g)
        λ a t calm.
          let sends = send_record c data_frame a.0 payload t in
          Post-bind Q E (λ b u. Calm s u) sends _
            (Calm-then s t sends calm (send_record-Calm data_frame a.0 payload t calm.good))
            λ b u q. q
