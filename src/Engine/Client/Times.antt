-- ===== src/Engine/Client/Times.antt =====
-- The invariant where `ClientEngine` of crates/udp2raw-ng-core/src/engine.rs takes the time and closes
-- conversations.
use udp2raw_ng.Prelude.{
  ℕ, ◌+◌, ◌-◌, ◌≤◌, ◌≡◌, refl, sym, ◌∙◌, ap, inl, inr, true, Option, none, some, List, [], ◌∷◌,
  arith, leb, Bool-cases, Option-cases, length, is_some, Result, ok, err, ◌==◌, eq_self,
}
use udp2raw_ng.Prelude.Maps.{Map, lookup, remove, length-remove, lookup-remove_inv, IsDistinct}
use udp2raw_ng.Errors.{FrameError}
use udp2raw_ng.Engine.Handles.Laws.{release-Allocated}
use udp2raw_ng.Engine.Client.{
  ClientEngine, ClientConversation, ClientHandshake, ClientSession, QueuedClientDatagram,
  is_handshaking,
}
use udp2raw_ng.Engine.Client.Queue.{
  overdue, drop_overdue, expire_queued_datagrams, clear_queued_datagrams,
}
use udp2raw_ng.Engine.Client.Expire.{
  should_close, should_retry, last_message, send_again, give_up, expire_handshake,
  idle_conversations, released, without_conversation, close_all, expire, close,
}
use udp2raw_ng.Engine.Client.Invariant.{
  SessionAllocated, IsGood, Entry, Owns, Entry-Owns, Linked-remove,
}
use udp2raw_ng.Engine.Client.Steps.{IsGood-session}
use udp2raw_ng.Engine.Client.Starts.{Leaves}
use udp2raw_ng.Engine.Client.Replies.{InPhase-Made, IsGood-exchange}

released-Allocated :
    (id : ℕ) (x : Option ClientSession) → SessionAllocated x → SessionAllocated (released id x)
released-Allocated id none a = tt
released-Allocated id (some x) a = release-Allocated x.handles id a

is_some-released : (id : ℕ) (x : Option ClientSession) → is_some x ≡ is_some (released id x)
is_some-released id none = refl
is_some-released id (some x) = refl

pub IsGood-without :
    (s : ClientEngine) (peer id : ℕ)
    → IsGood s
    → Owns s.by_peer peer id
    → IsGood (without_conversation peer id s)
IsGood-without s peer id g owned =
    let y = released id s.session in
    let g1 =
      IsGood-session s y g (released-Allocated id s.session g.allocated)
        (is_some-released id s.session) in
    record {
      valid = g.valid;
      phase = g1.phase;
      allocated = g1.allocated;
      room = omega (arith, g.room, length-remove s.by_peer peer);
      waiting = g.waiting;
      linked = Linked-remove s.by_peer s.by_id peer id g.linked owned;
    }

pub close-IsGood : (id : ℕ) (s : ClientEngine) → IsGood s → Leaves IsGood (close id s)
unfolding close
close-IsGood id s g = elim (Option-cases (lookup s.by_id id)) [
  | inl e ↦ rw (close, e) g
  | inr (peer, e) ↦
      rw (close, e)
        (IsGood-without s peer id g (Entry-Owns s.by_peer peer id (g.linked.owner id peer e)))
]

-- The conversations of a list are those of the map.
abbrev AllOwned : Map ClientConversation → List (ℕ × ℕ) → Type 0
AllOwned by_peer [] = Unit {0}
AllOwned by_peer ((peer, id) ∷ rest) = Owns by_peer peer id × AllOwned by_peer rest

abbrev AllIn : Map ClientConversation → List (ℕ × ℕ) → Type 0
AllIn by_peer [] = Unit {0}
AllIn by_peer ((peer, id) ∷ rest) = Entry by_peer peer id × AllIn by_peer rest

AllIn-AllOwned :
    (by_peer : Map ClientConversation) (l : List (ℕ × ℕ)) → AllIn by_peer l → AllOwned by_peer l
AllIn-AllOwned by_peer [] h = tt
AllIn-AllOwned by_peer ((peer, id) ∷ rest) (h, t) =
    (Entry-Owns by_peer peer id h, AllIn-AllOwned by_peer rest t)

AllIn-more :
    (p : ℕ × ClientConversation) (by_peer : Map ClientConversation) (l : List (ℕ × ℕ))
    → lookup by_peer p.0 ≡ none
    → AllIn by_peer l
    → AllIn (p ∷ by_peer) l
AllIn-more p by_peer [] fresh h = tt
AllIn-more p by_peer ((peer, id) ∷ rest) fresh ((x, there, own), t) = (
  elim (Bool-cases (p.0 == peer)) [
    | inl e ↦
        let equal : p.0 ≡ peer = ground arith in
        let bad : ◌≡◌ {A = Option ClientConversation} none (some x) =
          sym fresh ∙ ap (lookup by_peer) equal ∙ there in
        absurd cc
    | inr e ↦ (x, rw e there, own)
  ],
  AllIn-more p by_peer rest fresh t,
)

idle_conversations-AllIn :
    (timeout now : ℕ) (by_peer : Map ClientConversation)
    → IsDistinct by_peer
    → AllIn by_peer (idle_conversations timeout now by_peer)
idle_conversations-AllIn timeout now [] d = tt
idle_conversations-AllIn timeout now ((peer, x) ∷ rest) (fresh, d) =
    let more =
      AllIn-more (peer, x) rest (idle_conversations timeout now rest) fresh
        (idle_conversations-AllIn timeout now rest d) in
    elim (Bool-cases (leb timeout (now - x.last_activity))) [
      | inl late ↦ rw late ((x, rw (eq_self peer) refl, refl), more)
      | inr early ↦ rw early more
    ]

AllOwned-remove :
    (by_peer : Map ClientConversation) (peer : ℕ) (l : List (ℕ × ℕ))
    → AllOwned by_peer l
    → AllOwned (remove by_peer peer) l
AllOwned-remove by_peer peer [] h = tt
AllOwned-remove by_peer peer ((other, id) ∷ rest) (h, t) =
    (λ x e. h x (lookup-remove_inv by_peer peer other x e).1, AllOwned-remove by_peer peer rest t)

pub close_all-IsGood :
    (l : List (ℕ × ℕ)) (s : ClientEngine)
    → IsGood s
    → AllOwned s.by_peer l
    → Leaves IsGood (close_all l s)
unfolding close_all
close_all-IsGood [] s g h = g
close_all-IsGood ((peer, id) ∷ rest) s g (h, t) =
    close_all-IsGood rest (without_conversation peer id s) (IsGood-without s peer id g h)
      (AllOwned-remove s.by_peer peer rest t)

length-drop_overdue :
    (timeout now : ℕ) (l : List QueuedClientDatagram)
    → length (drop_overdue timeout now l).0 ≤ length l
unfolding drop_overdue
length-drop_overdue timeout now [] = omega arith
length-drop_overdue timeout now (x ∷ rest) = elim (Bool-cases (overdue timeout now x)) [
  | inl late ↦ rw late (omega (arith, length-drop_overdue timeout now rest))
  | inr early ↦ rw early (omega arith)
]

expire_queued_datagrams-IsGood :
    (now : ℕ) (s : ClientEngine) → IsGood s → Leaves IsGood (expire_queued_datagrams now s)
unfolding expire_queued_datagrams
expire_queued_datagrams-IsGood now s g = record {
  valid = g.valid;
  phase = g.phase;
  allocated = g.allocated;
  room = g.room;
  waiting = omega (
    arith,
    g.waiting,
    length-drop_overdue s.config.reconnect_queue_timeout now s.queued_datagrams,
  );
  linked = g.linked;
}

give_up-IsGood : (s : ClientEngine) → IsGood s → Leaves IsGood (give_up s)
unfolding give_up clear_queued_datagrams
give_up-IsGood s g = record {
  valid = g.valid;
  phase = (refl, refl);
  allocated = tt;
  room = g.room;
  waiting = omega arith;
  linked = g.linked;
}

send_again-IsGood :
    (h : ClientHandshake) (now : ℕ) (r : Result FrameError (List ℕ)) (s : ClientEngine)
    → IsGood s
    → is_handshaking s ≡ true
    → s.handshake ≡ some h
    → Leaves IsGood (send_again h now r s)
send_again-IsGood h now (ok bytes) s g going has =
    IsGood-exchange s (record h { last_sent_at = now; attempts = h.attempts + 1 }) s.session g going
      (InPhase-Made s.state s.handshake h s.session g.phase going has) g.allocated
send_again-IsGood h now (err e) s g going has = g

expire_handshake-IsGood :
    (now : ℕ) (s : ClientEngine) → IsGood s → Leaves IsGood (expire_handshake now s)
unfolding expire_handshake
expire_handshake-IsGood now s g = elim (Option-cases s.handshake) [
  | inl e ↦ rw (expire_handshake, e) g
  | inr (h, e) ↦ elim (Bool-cases (is_handshaking s)) [
    | inr over ↦ rw (expire_handshake, e, over) g
    | inl going ↦ elim (Bool-cases (should_close s.config now h)) [
      | inl late ↦ rw (expire_handshake, e, going, late) (give_up-IsGood s g)
      | inr early ↦ elim (Bool-cases (should_retry s.config now h)) [
        | inl again ↦
            rw (expire_handshake, e, going, early, again)
              (send_again-IsGood h now (last_message h.hello h.phase) s g going e)
        | inr waits ↦ rw (expire_handshake, e, going, early, waits) g
      ]
    ]
  ]
]

pub expire-IsGood : (now : ℕ) (s : ClientEngine) → IsGood s → Leaves IsGood (expire now s)
unfolding expire
expire-IsGood now s g =
    let s1 = (expire_handshake now s).1 in
    let g1 = expire_handshake-IsGood now s g in
    let s2 = (expire_queued_datagrams now s1).1 in
    let g2 = expire_queued_datagrams-IsGood now s1 g1 in
    let l = idle_conversations s2.config.conversation_idle_timeout now s2.by_peer in
    close_all-IsGood l s2 g2 (
      AllIn-AllOwned s2.by_peer l (
        idle_conversations-AllIn s2.config.conversation_idle_timeout now s2.by_peer
          g2.linked.distinct))
