-- ===== src/Engine/Client/Locals.antt =====
-- The invariant where `ClientEngine` of crates/udp2raw-ng-core/src/engine.rs takes local
-- datagrams.
use udp2raw_ng.Prelude.{
  ℕ, inl, inr, List, [], ◌∷◌, arith, leb, ltb, Bool-cases, length, length-append,
}
use udp2raw_ng.Crypto.{Primitives}
use udp2raw_ng.Engine.Events.{is_ready}
use udp2raw_ng.Engine.Rules.{Post, Post-weaken}
use udp2raw_ng.Engine.Client.{ClientEngine, is_handshaking}
use udp2raw_ng.Engine.Client.Queue.{enqueue_reconnect_datagram}
use udp2raw_ng.Engine.Client.Begin.{begin_reconnect, reconnect, ready_session_is_stale}
use udp2raw_ng.Engine.Client.Local.{reconnect_with, handle_local}
use udp2raw_ng.Engine.Client.Invariant.{IsGood}
use udp2raw_ng.Engine.Client.Steps.{Calm}
use udp2raw_ng.Engine.Client.Sends.{send_local-Calm}
use udp2raw_ng.Engine.Client.Starts.{Leaves, begin_reconnect-IsGood}

pub enqueue-IsGood :
    (peer : ℕ) (payload : List ℕ) (now : ℕ) (s : ClientEngine)
    → IsGood s
    → Leaves IsGood (enqueue_reconnect_datagram peer payload now s)
unfolding enqueue_reconnect_datagram
enqueue-IsGood peer payload now s g =
    elim (Bool-cases (leb s.config.reconnect_queue_capacity (length s.queued_datagrams))) [
      | inl full ↦ rw full g
      | inr space ↦ rw space (record {
        valid = g.valid;
        phase = g.phase;
        allocated = g.allocated;
        room = g.room;
        waiting = ground (
          arith,
          length-append s.queued_datagrams
              (record { local_peer = peer; payload = payload; queued_at = now } ∷ []),
        );
        linked = g.linked;
      })
    ]

pub reconnect-IsGood :
    (now : ℕ) (s : ClientEngine)
    → IsGood s
    → Post (λ a t. IsGood t) (λ t. IsGood t) (reconnect now s)
unfolding reconnect
reconnect-IsGood now s g = elim (Bool-cases (is_ready s.state)) [
  | inl is ↦ rw is (begin_reconnect-IsGood now s g)
  | inr other ↦ rw other g
]

module _ (c : Primitives) where
  reconnect_with-IsGood :
      (peer : ℕ) (payload : List ℕ) (now : ℕ) (s : ClientEngine)
      → IsGood s
      → Leaves IsGood (reconnect_with c peer payload now s)
  unfolding reconnect_with
  reconnect_with-IsGood peer payload now s g =
      let (actions, s1) = begin_reconnect now s in
      let g1 = begin_reconnect-IsGood now s g in
      elim (Bool-cases (is_handshaking s1)) [
        | inl going ↦ rw going (enqueue-IsGood peer payload now s1 g1)
        | inr over ↦ rw over g1
      ]

  pub handle_local-IsGood :
      (peer : ℕ) (payload : List ℕ) (now : ℕ) (s : ClientEngine)
      → IsGood s
      → Post (λ a t. IsGood t) (λ t. IsGood t) (handle_local c peer payload now s)
  unfolding handle_local
  handle_local-IsGood peer payload now s g =
      elim (Bool-cases (ltb s.config.max_frame_payload (length payload))) [
        | inl large ↦ rw large g
        | inr fits ↦ elim (Bool-cases (is_ready s.state)) [
          | inl is ↦ elim (Bool-cases (ready_session_is_stale now s)) [
            | inl stale ↦ rw (fits, is, stale) (reconnect_with-IsGood peer payload now s g)
            | inr fresh ↦
                rw (fits, is, fresh)
                  (Post-weaken (λ a t. IsGood t) (λ t. IsGood t) (λ a t. Calm s t) (λ t. Calm s t) _
                    (send_local-Calm c peer payload now s g) (λ a t q. q.good) λ t q. q.good)
          ]
          | inr other ↦ elim (Bool-cases (is_handshaking s)) [
            | inl going ↦ rw (fits, other, going) (enqueue-IsGood peer payload now s g)
            | inr over ↦ rw (fits, other, over) g
          ]
        ]
      ]
