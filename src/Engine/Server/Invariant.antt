-- ===== src/Engine/Server/Invariant.antt =====
-- The invariant of `ServerEngine` of crates/udp2raw-ng-core/src/engine.rs.
use udp2raw_ng.Prelude.{
  ℕ, ◌≤◌, ◌≡◌, inl, inr, Bool, true, not, Option, some, List, [], ◌∷◌, arith, leb, ◌==◌, length,
  Bool-cases, eq_self,
}
use udp2raw_ng.Prelude.Maps.{
  Map, lookup, insert, remove, retain, length-remove, length-remove_found, length-retain,
  lookup-insert_self, All, All-insert, All-remove, All-lookup,
}
use udp2raw_ng.Config.{EngineConfig}
use udp2raw_ng.Config.Laws.{IsValid}
use udp2raw_ng.Engine.Server.{
  ServerEngine, ServerSession, ResumableSession, PendingHandshake, HandshakeRateBucket, put_session,
}
use udp2raw_ng.Engine.Server.Admit.{pending_of}
use udp2raw_ng.Engine.Server.Limits.{IsLimited}
use udp2raw_ng.Engine.Server.Fits.{Fits}

-- No more pending handshakes than configured, in all and for each peer.
pub record IsBounded (config : EngineConfig) (pending : Map PendingHandshake) : Type 0 where
  pub few : length pending ≤ config.max_pending_handshakes
  pub few_of : (peer_id : ℕ) → pending_of peer_id pending ≤ config.max_pending_handshakes_per_peer

abbrev pub FitsIn : EngineConfig → ServerSession → Type 0
FitsIn config x = Fits config x.conversations x.handles

abbrev pub SmallIn : EngineConfig → ResumableSession → Type 0
SmallIn config x = length x.conversations ≤ config.max_conversations

pub record IsSound (config : EngineConfig) (pending : Map PendingHandshake)
    (sessions : Map ServerSession) (resumable : Map ResumableSession)
    (buckets : Map HandshakeRateBucket) : Type 0 where
  pub valid : IsValid config
  pub limited : IsLimited config buckets
  pub bounded : IsBounded config pending
  pub room : length sessions ≤ config.max_sessions
  pub fitting : All (FitsIn config) sessions
  pub recoverable : All (SmallIn config) resumable

abbrev pub IsGood : ServerEngine → Type 0
IsGood s = IsSound s.config s.pending s.sessions s.resumable s.handshake_rate_buckets

pending_of-remove :
    (peer_id : ℕ) (m : Map PendingHandshake) (k : ℕ)
    → pending_of peer_id (remove m k) ≤ pending_of peer_id m
pending_of-remove peer_id [] k = omega arith
pending_of-remove peer_id (p ∷ m) k =
    let ih = pending_of-remove peer_id m k in
    elim (Bool-cases (p.0 == k)) [
      | inl e ↦ elim (Bool-cases (p.1.peer_id == peer_id)) [
        | inl own ↦ rw (e, own) (omega (arith, ih))
        | inr other ↦ rw (e, other) ih
      ]
      | inr e ↦ elim (Bool-cases (p.1.peer_id == peer_id)) [
        | inl own ↦ rw (e, own) (omega (arith, ih))
        | inr other ↦ rw (e, other) ih
      ]
    ]

pending_of-retain :
    (peer_id : ℕ) (keep : PendingHandshake → Bool) (m : Map PendingHandshake)
    → pending_of peer_id (retain keep m) ≤ pending_of peer_id m
pending_of-retain peer_id keep [] = omega arith
pending_of-retain peer_id keep (p ∷ m) =
    let ih = pending_of-retain peer_id keep m in
    elim (Bool-cases (keep p.1)) [
      | inl e ↦ elim (Bool-cases (p.1.peer_id == peer_id)) [
        | inl own ↦ rw (e, own) (omega (arith, ih))
        | inr other ↦ rw (e, other) ih
      ]
      | inr e ↦ elim (Bool-cases (p.1.peer_id == peer_id)) [
        | inl own ↦ rw (e, own) (omega (arith, ih))
        | inr other ↦ rw (e, other) ih
      ]
    ]

pub IsBounded-remove :
    (config : EngineConfig) (m : Map PendingHandshake) (k : ℕ)
    → IsBounded config m
    → IsBounded config (remove m k)
IsBounded-remove config m k b = record {
  few = omega (arith, b.few, length-remove m k);
  few_of = λ peer_id. omega (arith, b.few_of peer_id, pending_of-remove peer_id m k);
}

pub IsBounded-retain :
    (config : EngineConfig) (keep : PendingHandshake → Bool) (m : Map PendingHandshake)
    → IsBounded config m
    → IsBounded config (retain keep m)
IsBounded-retain config keep m b = record {
  few = omega (arith, b.few, length-retain keep m);
  few_of = λ peer_id. omega (arith, b.few_of peer_id, pending_of-retain peer_id keep m);
}

-- A new pending handshake.
pub IsBounded-insert :
    (config : EngineConfig) (m : Map PendingHandshake) (k : ℕ) (p : PendingHandshake)
    → IsBounded config m
    → not (leb config.max_pending_handshakes (length m)) ≡ true
    → not (leb config.max_pending_handshakes_per_peer (pending_of p.peer_id m)) ≡ true
    → IsBounded config (insert m k p)
IsBounded-insert config m k p b space space_of = record {
  few = ground (arith, length-remove m k);
  few_of = λ peer_id.
      let fewer = pending_of-remove peer_id m k in
      elim (Bool-cases (p.peer_id == peer_id)) [
        | inl own ↦
            let equal : p.peer_id ≡ peer_id = ground arith in
            let there = rw equal at space_of in rw own (ground (arith, fewer, there))
        | inr other ↦ rw other (omega (arith, fewer, b.few_of peer_id))
      ];
}

-- The invariant, and a session that is there.
pub record Holds (id : ℕ) (s : ServerEngine) : Type 0 where
  pub good : IsGood s
  pub there : (x : ServerSession) × (lookup s.sessions id ≡ some x)

-- The session with which a method goes on.
pub record Carries (id : ℕ) (y : ServerSession) (s : ServerEngine) : Type 0 where
  pub holds : Holds id s
  pub fits : FitsIn s.config y

-- A session in place of one with the same id.
pub Carries-put :
    (id : ℕ) (y : ServerSession) (s : ServerEngine)
    → Holds id s
    → FitsIn s.config y
    → Carries id y (put_session id y s)
Carries-put id y s h f =
    let g = h.good in
    let (x, e) = h.there in
    record {
      holds = record {
        good = record {
          valid = g.valid;
          limited = g.limited;
          bounded = g.bounded;
          room = omega (arith, g.room, length-remove_found s.sessions id x e);
          fitting = All-insert (FitsIn s.config) s.sessions id y g.fitting f;
          recoverable = g.recoverable;
        };
        there = (y, lookup-insert_self s.sessions id y);
      };
      fits = f;
    }

-- A session that is written twice.
pub Carries-put_twice :
    (id : ℕ) (y z : ServerSession) (s : ServerEngine)
    → Holds id s
    → FitsIn s.config z
    → Carries id z (put_session id z (put_session id y s))
Carries-put_twice id y z s h f =
    let g = h.good in
    let (x, e) = h.there in
    let less = length-remove_found s.sessions id x e in
    let again = length-remove (remove s.sessions id) id in
    let others =
      All-remove (FitsIn s.config) (remove s.sessions id) id
        (All-remove (FitsIn s.config) s.sessions id g.fitting) in
    record {
      holds = record {
        good = record {
          valid = g.valid;
          limited = g.limited;
          bounded = g.bounded;
          room = rw (eq_self id) (omega (arith, g.room, less, again));
          fitting = rw (eq_self id) (f, others);
          recoverable = g.recoverable;
        };
        there = (z, lookup-insert_self (insert s.sessions id y) id z);
      };
      fits = f;
    }

pub Carries-found :
    (id : ℕ) (x : ServerSession) (s : ServerEngine)
    → IsGood s
    → lookup s.sessions id ≡ some x
    → Carries id x s
Carries-found id x s g e = record {
  holds = record { good = g; there = (x, e) };
  fits = All-lookup (FitsIn s.config) s.sessions id x g.fitting e;
}

-- Other random numbers.
pub Carries-entropy :
    (id : ℕ) (y : ServerSession) (s : ServerEngine) (e : List (Option (List ℕ)))
    → Carries id y s
    → Carries id y (record s { entropy = e })
Carries-entropy id y s e k = record {
  holds = record { good = k.holds.good; there = k.holds.there };
  fits = k.fits;
}
