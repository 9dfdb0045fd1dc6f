-- ===== src/Engine/Server/Expire.antt =====
-- Time in `ServerEngine` of crates/udp2raw-ng-core/src/engine.rs: `expire`.
use udp2raw_ng.Prelude.{
  ℕ, ◌+◌, ◌-◌, ◌*◌, ◌^◌, Bool, ◌&&◌, Option, none, some, List, [], ◌∷◌, ◌++◌, leb, ltb,
  if◌then◌else◌, min,
}
use udp2raw_ng.Prelude.Maps.{Map, lookup, insert, remove, retain}
use udp2raw_ng.Config.{EngineConfig}
use udp2raw_ng.Engine.Events.{
  TunnelAction, session_closed, session_recovery_expired, conversation_closed,
}
use udp2raw_ng.Engine.Server.{
  ServerEngine, ServerSession, ResumableSession, PendingHandshake, HandshakeRateBucket,
}
use udp2raw_ng.Engine.Server.Records.{without}

-- The conversations of a session that have been idle for the timeout.
abbrev pub idle_ids : ℕ → ℕ → Map ℕ → List ℕ
idle_ids timeout now [] = []
idle_ids timeout now ((id, last_activity) ∷ rest) =
    let more = idle_ids timeout now rest in
    if leb timeout (now - last_activity) then id ∷ more else more

abbrev pub without_all : List ℕ → ServerSession → ServerSession
without_all [] session = session
without_all (id ∷ rest) session = without_all rest (without id session)

abbrev pub closed_ids : ℕ → List ℕ → List TunnelAction
closed_ids session_id [] = []
closed_ids session_id (id ∷ rest) =
    conversation_closed (some session_id) id ∷ closed_ids session_id rest

-- The loop over the sessions that closes idle conversations.
unfoldable pub close_idle : ℕ → ℕ → Map ServerSession → Map ServerSession × List TunnelAction
close_idle timeout now [] = ([], [])
close_idle timeout now ((session_id, session) ∷ rest) =
    let (others, actions) = close_idle timeout now rest in
    let ids = idle_ids timeout now session.conversations in
    ((session_id, without_all ids session) ∷ others, closed_ids session_id ids ++ actions)

abbrev pub is_expired : ℕ → ℕ → ServerSession → Bool
is_expired timeout now session =
    leb session.expires_at now && leb timeout (now - session.last_activity)

-- The sessions that have expired: their ids and their peers.
abbrev pub expired_sessions : ℕ → ℕ → Map ServerSession → List (ℕ × ℕ)
expired_sessions timeout now [] = []
expired_sessions timeout now ((session_id, session) ∷ rest) =
    let more = expired_sessions timeout now rest in
    if is_expired timeout now session then (session_id, session.peer_id) ∷ more else more

-- A session that is removed can be resumed if it has conversations.
abbrev pub resumable_with :
    ℕ → ℕ → Option ServerSession → Map ResumableSession → Map ResumableSession
resumable_with session_id expires_at none resumable = resumable
resumable_with session_id expires_at (some session) resumable = elim session.conversations [
  | [] ↦ resumable
  | p ∷ rest ↦
      insert resumable session_id
        (record { conversations = session.conversations; expires_at = expires_at })
]

abbrev pub end_session : ℕ → ℕ → ServerEngine → ServerEngine
end_session now session_id s = record s {
  sessions = remove s.sessions session_id;
  resumable =
      resumable_with session_id (now + s.config.resumption_lifetime) (lookup s.sessions session_id)
        s.resumable;
}

unfoldable pub end_sessions : ℕ → List (ℕ × ℕ) → ServerEngine → List TunnelAction × ServerEngine
end_sessions now [] s = ([], s)
end_sessions now ((session_id, peer_id) ∷ rest) s =
    let (actions, s') = end_sessions now rest (end_session now session_id s) in
    (session_closed peer_id session_id ∷ actions, s')

-- The resumable sessions that have expired.
abbrev pub expired_resumable : ℕ → Map ResumableSession → List ℕ
expired_resumable now [] = []
expired_resumable now ((session_id, session) ∷ rest) =
    let more = expired_resumable now rest in
    if leb session.expires_at now then session_id ∷ more else more

unfoldable pub forget_all : List ℕ → ServerEngine → List TunnelAction × ServerEngine
forget_all [] s = ([], s)
forget_all (session_id ∷ rest) s =
    let (actions, s') = forget_all rest (record s { resumable = remove s.resumable session_id }) in
    (session_recovery_expired session_id ∷ actions, s')

-- `saturating_mul`: a `Duration` has less than 2 ^ 64 seconds.
abbrev pub bucket_retention : EngineConfig → ℕ
bucket_retention config =
    min (config.handshake_rate_refill_interval * min config.handshake_rate_limit_burst (2 ^ 32 - 1))
      (2 ^ 64 * 1_000_000_000 - 1)

abbrev pub is_young : ℕ → ℕ → PendingHandshake → Bool
is_young timeout now pending = ltb (now - pending.created_at) timeout

abbrev pub is_recent : ℕ → ℕ → HandshakeRateBucket → Bool
is_recent retention now bucket = ltb (now - bucket.last_refill_at) retention

unfoldable pub drop_pending : ℕ → ServerEngine → ServerEngine
drop_pending now s = record s {
  pending = retain (is_young s.config.handshake_timeout now) s.pending;
}

unfoldable pub close_conversations : ℕ → ServerEngine → List TunnelAction × ServerEngine
close_conversations now s =
    let (sessions, actions) = close_idle s.config.conversation_idle_timeout now s.sessions in
    (actions, record s { sessions = sessions })

unfoldable pub drop_buckets : ℕ → ServerEngine → ServerEngine
drop_buckets now s = record s {
  handshake_rate_buckets =
      retain (is_recent (bucket_retention s.config) now) s.handshake_rate_buckets;
}

unfoldable pub expire : ℕ → ServerEngine → List TunnelAction × ServerEngine
expire now s =
    let (first, s1) = close_conversations now (drop_pending now s) in
    let (second, s2) =
      end_sessions now (expired_sessions s1.config.session_idle_timeout now s1.sessions) s1 in
    let (third, s3) = forget_all (expired_resumable now s2.resumable) s2 in
    (first ++ (second ++ third), drop_buckets now s3)
