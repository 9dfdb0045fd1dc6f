-- ===== src/Engine/Server/Ages.antt =====
-- The invariant where `ServerEngine` of crates/udp2raw-ng-core/src/engine.rs takes the time.
use udp2raw_ng.Prelude.{
  ℕ, ◌+◌, ◌≤◌, ◌≡◌, refl, inl, inr, Option, none, some, List, [], ◌∷◌, arith, length, list_cases,
}
use udp2raw_ng.Prelude.Maps.{
  Map, lookup, remove, length-remove, length-retain, All, All-insert, All-remove, All-lookup,
  All-retain,
}
use udp2raw_ng.Config.{EngineConfig}
use udp2raw_ng.Engine.Server.{ServerEngine, ServerSession, ResumableSession, HandshakeRateBucket}
use udp2raw_ng.Engine.Server.Records.{without}
use udp2raw_ng.Engine.Server.Expire.{
  idle_ids, without_all, close_idle, resumable_with, end_session, end_sessions, forget_all,
  expired_sessions, expired_resumable, is_young, is_recent, bucket_retention, drop_pending,
  close_conversations, drop_buckets, expire,
}
use udp2raw_ng.Engine.Server.Fits.{Fits-released}
use udp2raw_ng.Engine.Server.Invariant.{IsBounded-retain, FitsIn, SmallIn, IsGood}

FitsIn-without_all :
    (config : EngineConfig) (l : List ℕ) (x : ServerSession)
    → FitsIn config x
    → FitsIn config (without_all l x)
FitsIn-without_all config [] x f = f
FitsIn-without_all config (id ∷ rest) x f =
    FitsIn-without_all config rest (without id x)
      (Fits-released config x.conversations x.handles id f)

close_idle-FitsIn :
    (config : EngineConfig) (timeout now : ℕ) (m : Map ServerSession)
    → All (FitsIn config) m
    → All (FitsIn config) (close_idle timeout now m).0
      × (length (close_idle timeout now m).0 ≡ length m)
unfolding close_idle
close_idle-FitsIn config timeout now [] a = (tt, refl)
close_idle-FitsIn config timeout now ((id, x) ∷ rest) a =
    let (others, same) = close_idle-FitsIn config timeout now rest a.1 in
    (
      (FitsIn-without_all config (idle_ids timeout now x.conversations) x a.0, others),
      omega (arith, same),
    )

close_conversations-IsGood :
    (now : ℕ) (s : ServerEngine) → IsGood s → IsGood (close_conversations now s).1
unfolding close_conversations
close_conversations-IsGood now s g =
    let (fit, same) =
      close_idle-FitsIn s.config s.config.conversation_idle_timeout now s.sessions g.fitting in
    record {
      valid = g.valid;
      limited = g.limited;
      bounded = g.bounded;
      room = omega (arith, g.room, same);
      fitting = fit;
      recoverable = g.recoverable;
    }

resumable_with-SmallIn :
    (config : EngineConfig) (id at : ℕ) (x : Option ServerSession) (m : Map ResumableSession)
    → ((z : ServerSession) → x ≡ some z → FitsIn config z)
    → All (SmallIn config) m
    → All (SmallIn config) (resumable_with id at x m)
resumable_with-SmallIn config id at none m f a = a
resumable_with-SmallIn config id at (some x) m f a = elim (list_cases x.conversations) [
  | inl e ↦ rw e a
  | inr (p, rest, e) ↦ rw e (
      All-insert (SmallIn config) m id (record { conversations = x.conversations; expires_at = at })
        a (f x refl).small)
]

IsGood-ended : (now id : ℕ) (s : ServerEngine) → IsGood s → IsGood (end_session now id s)
IsGood-ended now id s g = record {
  valid = g.valid;
  limited = g.limited;
  bounded = g.bounded;
  room = omega (arith, g.room, length-remove s.sessions id);
  fitting = All-remove (FitsIn s.config) s.sessions id g.fitting;
  recoverable =
      resumable_with-SmallIn s.config id (now + s.config.resumption_lifetime) (lookup s.sessions id)
        s.resumable (λ z e. All-lookup (FitsIn s.config) s.sessions id z g.fitting e) g.recoverable;
}

end_sessions-IsGood :
    (now : ℕ) (l : List (ℕ × ℕ)) (s : ServerEngine) → IsGood s → IsGood (end_sessions now l s).1
unfolding end_sessions
end_sessions-IsGood now [] s g = g
end_sessions-IsGood now ((id, peer_id) ∷ rest) s g =
    end_sessions-IsGood now rest (end_session now id s) (IsGood-ended now id s g)

forget_all-IsGood : (l : List ℕ) (s : ServerEngine) → IsGood s → IsGood (forget_all l s).1
unfolding forget_all
forget_all-IsGood [] s g = g
forget_all-IsGood (id ∷ rest) s g =
    forget_all-IsGood rest (record s { resumable = remove s.resumable id })
      (record {
        valid = g.valid;
        limited = g.limited;
        bounded = g.bounded;
        room = g.room;
        fitting = g.fitting;
        recoverable = All-remove (SmallIn s.config) s.resumable id g.recoverable;
      })

drop_pending-IsGood : (now : ℕ) (s : ServerEngine) → IsGood s → IsGood (drop_pending now s)
unfolding drop_pending
drop_pending-IsGood now s g = record {
  valid = g.valid;
  limited = g.limited;
  bounded = IsBounded-retain s.config (is_young s.config.handshake_timeout now) s.pending g.bounded;
  room = g.room;
  fitting = g.fitting;
  recoverable = g.recoverable;
}

drop_buckets-IsGood : (now : ℕ) (s : ServerEngine) → IsGood s → IsGood (drop_buckets now s)
unfolding drop_buckets
drop_buckets-IsGood now s g =
    let keep = is_recent (bucket_retention s.config) now in
    let m = s.handshake_rate_buckets in
    record {
      valid = g.valid;
      limited = record {
        few = omega (arith, g.limited.few, length-retain keep m);
        full =
            All-retain (λ (b : HandshakeRateBucket). b.tokens ≤ s.config.handshake_rate_limit_burst)
              keep m g.limited.full;
      };
      bounded = g.bounded;
      room = g.room;
      fitting = g.fitting;
      recoverable = g.recoverable;
    }

pub expire-IsGood : (now : ℕ) (s : ServerEngine) → IsGood s → IsGood (expire now s).1
unfolding expire
expire-IsGood now s g =
    let s0 = drop_pending now s in
    let s1 = (close_conversations now s0).1 in
    let g1 = close_conversations-IsGood now s0 (drop_pending-IsGood now s g) in
    let l1 = expired_sessions s1.config.session_idle_timeout now s1.sessions in
    let s2 = (end_sessions now l1 s1).1 in
    let l2 = expired_resumable now s2.resumable in
    drop_buckets-IsGood now (forget_all l2 s2).1
      (forget_all-IsGood l2 s2 (end_sessions-IsGood now l1 s1 g1))
