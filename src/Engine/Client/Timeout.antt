-- ===== src/Engine/Client/Timeout.antt =====
-- What time does to a handshake of `ClientEngine` of crates/udp2raw-ng-core/src/engine.rs.
use udp2raw_ng.Prelude.{
  ℕ, ◌-◌, ◌≤◌, ◌≡◌, refl, ◌∙◌, ap, inl, inr, true, false, none, some, List, [], ◌∷◌, arith,
  Bool-cases, Option-cases, Result, ok, err,
}
use udp2raw_ng.Errors.{FrameError}
use udp2raw_ng.Engine.Events.{closed, is_ready}
use udp2raw_ng.Engine.Client.{ClientEngine, ClientHandshake, is_handshaking}
use udp2raw_ng.Engine.Client.Queue.{expire_queued_datagrams, clear_queued_datagrams, drop_overdue}
use udp2raw_ng.Engine.Client.Expire.{
  should_close, should_retry, last_message, send_again, give_up, expire_handshake,
  idle_conversations, released, without_conversation, close_all, expire,
}

-- What the closing of conversations does not change.
close_all-kept :
    (l : List (ℕ × ℕ)) (s : ClientEngine)
    → ((close_all l s).1.state ≡ s.state)
      × ((close_all l s).1.handshake ≡ s.handshake)
      × ((close_all l s).1.queued_datagrams ≡ s.queued_datagrams)
unfolding close_all
close_all-kept [] s = (refl, refl, refl)
close_all-kept ((peer, id) ∷ rest) s = close_all-kept rest (without_conversation peer id s)

close_all-no_session :
    (l : List (ℕ × ℕ)) (s : ClientEngine) → s.session ≡ none → (close_all l s).1.session ≡ none
unfolding close_all
close_all-no_session [] s e = e
close_all-no_session ((peer, id) ∷ rest) s e =
    close_all-no_session rest (without_conversation peer id s) (ap (released id) e)

-- The state without a session that a handshake is given up in.
record IsOver (s : ClientEngine) : Type 0 where
  pub state_closed : s.state ≡ closed
  pub no_handshake : s.handshake ≡ none
  pub no_session : s.session ≡ none
  pub queue_empty : s.queued_datagrams ≡ []

expire_handshake-IsOver :
    (now : ℕ) (s : ClientEngine) (h : ClientHandshake)
    → is_handshaking s ≡ true
    → s.handshake ≡ some h
    → should_close s.config now h ≡ true
    → IsOver (expire_handshake now s).1
unfolding expire_handshake give_up clear_queued_datagrams
expire_handshake-IsOver now s h going has late =
    rw (expire_handshake, has, going, late)
      (record { state_closed = refl; no_handshake = refl; no_session = refl; queue_empty = refl })

expire_queued_datagrams-IsOver :
    (now : ℕ) (s : ClientEngine) → IsOver s → IsOver (expire_queued_datagrams now s).1
unfolding expire_queued_datagrams drop_overdue
expire_queued_datagrams-IsOver now s o = record {
  state_closed = o.state_closed;
  no_handshake = o.no_handshake;
  no_session = o.no_session;
  queue_empty =
      ap (λ (l : _). (drop_overdue s.config.reconnect_queue_timeout now l).0) o.queue_empty;
}

-- Once a handshake that is under way has lasted for the handshake timeout, `expire` closes the engine:
-- the state is closed, there is neither a handshake nor a session, and no datagram is queued.
pub expire-closes :
    (now : ℕ) (s : ClientEngine) (h : ClientHandshake)
    → is_handshaking s ≡ true
    → s.handshake ≡ some h
    → s.config.handshake_timeout ≤ now - h.started_at
    → ((expire now s).1.state ≡ closed)
      × ((expire now s).1.handshake ≡ none)
      × ((expire now s).1.session ≡ none)
      × ((expire now s).1.queued_datagrams ≡ [])
unfolding expire
expire-closes now s h going has late =
    let s1 = (expire_handshake now s).1 in
    let s2 = (expire_queued_datagrams now s1).1 in
    let o =
      expire_queued_datagrams-IsOver now s1
        (expire_handshake-IsOver now s h going has (ground arith)) in
    let l = idle_conversations s2.config.conversation_idle_timeout now s2.by_peer in
    let kept = close_all-kept l s2 in
    (
      kept.0 ∙ o.state_closed,
      kept.1 ∙ o.no_handshake,
      close_all-no_session l s2 o.no_session,
      kept.2 ∙ o.queue_empty,
    )

send_again-state :
    (h : ClientHandshake) (now : ℕ) (r : Result FrameError (List ℕ)) (s : ClientEngine)
    → (send_again h now r s).1.state ≡ s.state
send_again-state h now (ok bytes) s = refl
send_again-state h now (err x) s = refl

expire_handshake-not_ready :
    (now : ℕ) (s : ClientEngine)
    → is_ready s.state ≡ false
    → is_ready (expire_handshake now s).1.state ≡ false
unfolding expire_handshake give_up clear_queued_datagrams
expire_handshake-not_ready now s unready = elim (Option-cases s.handshake) [
  | inl e ↦ rw (expire_handshake, e) unready
  | inr (h, e) ↦ elim (Bool-cases (is_handshaking s)) [
    | inr over ↦ rw (expire_handshake, e, over) unready
    | inl going ↦ elim (Bool-cases (should_close s.config now h)) [
      | inl late ↦ rw (expire_handshake, e, going, late)
      | inr early ↦ elim (Bool-cases (should_retry s.config now h)) [
        | inl again ↦
            rw (expire_handshake, e, going, early, again)
              (ap is_ready (send_again-state h now (last_message h.hello h.phase) s) ∙ unready)
        | inr waits ↦ rw (expire_handshake, e, going, early, waits) unready
      ]
    ]
  ]
]

pub expire-not_ready :
    (now : ℕ) (s : ClientEngine)
    → is_ready s.state ≡ false
    → is_ready (expire now s).1.state ≡ false
unfolding expire expire_queued_datagrams
expire-not_ready now s unready =
    let s1 = (expire_handshake now s).1 in
    let s2 = (expire_queued_datagrams now s1).1 in
    let l = idle_conversations s2.config.conversation_idle_timeout now s2.by_peer in
    ap is_ready (close_all-kept l s2).0 ∙ expire_handshake-not_ready now s unready
