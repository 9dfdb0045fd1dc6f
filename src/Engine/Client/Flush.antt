-- ===== src/Engine/Client/Flush.antt =====
-- `flush_queued_datagrams` of crates/udp2raw-ng-core/src/engine.rs on a session that has just become
-- ready.
use udp2raw_ng.Prelude.{
  ℕ, zero, suc, ◌-◌, ◌≤◌, ◌≡◌, refl, sym, ◌∙◌, ap, inl, inr, Bool, true, false, Option, none, some,
  List, [], ◌∷◌, arith, leb, ltb, Bool-cases, Option-cases, length, list_cases,
}
use udp2raw_ng.Crypto.{Primitives}
use udp2raw_ng.Engine.Events.{ready, TunnelAction, is_ready}
use udp2raw_ng.Engine.Monad.{Outcome, returns, raises, panics}
use udp2raw_ng.Engine.Rules.{Post, Post-bind}
use udp2raw_ng.Engine.Client.{ClientEngine, QueuedClientDatagram}
use udp2raw_ng.Engine.Client.Queue.{overdue}
use udp2raw_ng.Engine.Client.Begin.{ready_session_is_stale}
use udp2raw_ng.Engine.Client.Local.{
  handle_local, or_dropped, flush_one, flush_loop, flush_queued_datagrams,
}
use udp2raw_ng.Engine.Client.Invariant.{IsGood}
use udp2raw_ng.Engine.Client.Steps.{received, Calm, Calm-refl}
use udp2raw_ng.Engine.Client.Sends.{send_local-Calm}

abbrev stale_at : ℕ → ℕ → Option ℕ → Bool
stale_at now timeout none = false
stale_at now timeout (some at) = leb timeout (now - at)

stale_by_age :
    (now : ℕ) (s : ClientEngine)
    → ready_session_is_stale now s ≡ stale_at now s.config.session_timeout (received s.session)
unfolding ready_session_is_stale
stale_by_age now s = elim (Option-cases s.session) [
  | inl e ↦ rw (ready_session_is_stale, e)
  | inr (x, e) ↦ rw (ready_session_is_stale, e)
]

-- A session that is ready and not stale.
pub record IsFresh (now : ℕ) (s : ClientEngine) : Type 0 where
  pub good : IsGood s
  pub is_in : s.state ≡ ready
  pub fresh : ready_session_is_stale now s ≡ false

pub IsFresh-Calm : (now : ℕ) (s t : ClientEngine) → IsFresh now s → Calm s t → IsFresh now t
IsFresh-Calm now s t f calm = record {
  good = calm.good;
  is_in = calm.state_same ∙ f.is_in;
  fresh =
      stale_by_age now t
      ∙ ap (λ (o : Option ℕ). stale_at now t.config.session_timeout o) calm.received_same
      ∙ ap (λ (k : _). stale_at now (k.session_timeout) (received s.session)) calm.config_same
      ∙ sym (stale_by_age now s)
      ∙ f.fresh;
}

abbrev popped : List QueuedClientDatagram → ClientEngine → ClientEngine
popped rest s = record s { queued_datagrams = rest }

IsFresh-popped :
    (now : ℕ) (queued : QueuedClientDatagram) (rest : List QueuedClientDatagram) (s : ClientEngine)
    → IsFresh now s
    → s.queued_datagrams ≡ queued ∷ rest
    → IsFresh now (popped rest s)
unfolding ready_session_is_stale
IsFresh-popped now queued rest s f has = record {
  good = record {
    valid = f.good.valid;
    phase = f.good.phase;
    allocated = f.good.allocated;
    room = f.good.room;
    waiting = omega (arith, f.good.waiting, ap length has);
    linked = f.good.linked;
  };
  is_in = f.is_in;
  fresh = f.fresh;
}

module _ (c : Primitives) where
  pub handle_local-fresh :
      (peer : ℕ) (payload : List ℕ) (now : ℕ) (s : ClientEngine)
      → IsFresh now s
      → Post (λ a t. Calm s t) (λ t. Calm s t) (handle_local c peer payload now s)
  unfolding handle_local
  handle_local-fresh peer payload now s f =
      let is : is_ready s.state ≡ true = ap is_ready f.is_in in
      elim (Bool-cases (ltb s.config.max_frame_payload (length payload))) [
        | inl large ↦ rw large (Calm-refl s f.good)
        | inr fits ↦ rw (fits, is, f.fresh) (send_local-Calm c peer payload now s f.good)
      ]

  or_dropped-Calm :
      (peer : ℕ) (s : ClientEngine) (r : Outcome (List TunnelAction) × ClientEngine)
      → Post (λ a t. Calm s t) (λ t. Calm s t) r
      → Post (λ a t. Calm s t) (λ t. ⊥) (or_dropped c peer r)
  or_dropped-Calm peer s (returns a, t) p = p
  or_dropped-Calm peer s (raises e, t) p = p
  or_dropped-Calm peer s (panics, t) p = p

  flush_one-Calm :
      (queued : QueuedClientDatagram) (now : ℕ) (s : ClientEngine)
      → IsFresh now s
      → Post (λ a t. Calm s t) (λ t. ⊥) (flush_one c queued now s)
  unfolding flush_one
  flush_one-Calm queued now s f =
      elim (Bool-cases (overdue s.config.reconnect_queue_timeout now queued)) [
        | inl late ↦ rw late (Calm-refl s f.good)
        | inr early ↦ rw early (
            or_dropped-Calm queued.local_peer s _
              (handle_local-fresh queued.local_peer queued.payload now s f))
      ]

  -- What the loop leaves.
  pub record Flushed (now : ℕ) (age : Option ℕ) (t : ClientEngine) : Type 0 where
    pub still : IsFresh now t
    pub empty : t.queued_datagrams ≡ []
    pub age_same : received t.session ≡ age

  flush_loop-Flushed :
      (rounds now : ℕ) (age : Option ℕ) (s : ClientEngine)
      → IsFresh now s
      → received s.session ≡ age
      → length s.queued_datagrams ≤ rounds
      → Post (λ a t. Flushed now age t) (λ t. ⊥) (flush_loop c rounds now s)
  unfolding flush_loop
  flush_loop-Flushed zero now age s f old few = elim (list_cases s.queued_datagrams) [
    | inl e ↦ rw (flush_loop, e) (record { still = f; empty = e; age_same = old })
    | inr (queued, rest, e) ↦ absurd (omega (arith, few, ap length e))
  ]
  flush_loop-Flushed (suc rounds) now age s f old few = elim (list_cases s.queued_datagrams) [
    | inl e ↦ rw (flush_loop, e) (record { still = f; empty = e; age_same = old })
    | inr (queued, rest, e) ↦
        let Q : List TunnelAction → ClientEngine → Type 0 = λ a t. Flushed now age t in
        let E : ClientEngine → Type 0 = λ t. ⊥ in
        let s1 = popped rest s in
        let f1 = IsFresh-popped now queued rest s f e in
        rw (flush_loop, e)
          (Post-bind Q E (λ a t. Calm s1 t) (flush_one c queued now s1) _
            (flush_one-Calm queued now s1 f1)
            λ a t calm.
              let few1 : length t.queued_datagrams ≤ rounds =
                omega (arith, few, ap length e, ap length calm.queue_same) in
              Post-bind Q E (λ b u. Flushed now age u) (flush_loop c rounds now t) _
                (flush_loop-Flushed rounds now age t (IsFresh-Calm now s1 t f1 calm)
                  (calm.received_same ∙ old) few1)
                λ b u done. done)
  ]

  -- On a session that is ready and not stale, the loop over the queued datagrams ends with the queue
  -- empty, without an error or a panic, and leaves the session ready and not stale.
  pub flush_queued_datagrams-Flushed :
      (now : ℕ) (s : ClientEngine)
      → IsFresh now s
      → Post (λ a t. Flushed now (received s.session) t) (λ t. ⊥) (flush_queued_datagrams c now s)
  unfolding flush_queued_datagrams
  flush_queued_datagrams-Flushed now s f =
      flush_loop-Flushed (length s.queued_datagrams) now (received s.session) s f refl (omega arith)
