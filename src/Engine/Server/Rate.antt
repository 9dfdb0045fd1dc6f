-- ===== src/Engine/Server/Rate.antt =====
-- The rate limit of handshakes in `ServerEngine` of crates/udp2raw-ng-core/src/engine.rs.
use udp2raw_ng.Prelude.{
  ℕ, ◌+◌, ◌-◌, ◌/◌, ◌^◌, Bool, false, not, ◌&&◌, Option, none, some, ◌==◌, leb, if◌then◌else◌,
  is_some, min, length,
}
use udp2raw_ng.Prelude.Maps.{lookup, insert}
use udp2raw_ng.Config.{EngineConfig}
use udp2raw_ng.Engine.Monad.{returns, pure, modify, ◌>>=◌, ◌>>◌, or_panic}
use udp2raw_ng.Engine.Server.{ServerEngine, HandshakeRateBucket, Server}

-- `entry(..).or_insert(..)`
abbrev pub bucket_of : EngineConfig → ℕ → Option HandshakeRateBucket → HandshakeRateBucket
bucket_of config now none = record {
  tokens = config.handshake_rate_limit_burst;
  last_refill_at = now;
}
bucket_of config now (some bucket) = bucket

-- `/` on integers, which panics if the divisor is 0.
abbrev pub divided : ℕ → ℕ → Option ℕ
divided a b = if b == 0 then none else some (a / b)

-- The bucket after `refill_count` has been counted.
unfoldable pub refilled : EngineConfig → ℕ → ℕ → HandshakeRateBucket → HandshakeRateBucket
refilled config now refill_count bucket = if refill_count == 0 then bucket else record {
  tokens =
      min (min (bucket.tokens + min refill_count (2 ^ 64 - 1)) (2 ^ 64 - 1))
        config.handshake_rate_limit_burst;
  last_refill_at = now;
}

-- A token less, if there is one.
abbrev pub spent : HandshakeRateBucket → HandshakeRateBucket
spent bucket = record bucket { tokens = bucket.tokens - 1 }

abbrev pub put_bucket : ℕ → HandshakeRateBucket → ServerEngine → ServerEngine
put_bucket peer_id bucket s = record s {
  handshake_rate_buckets = insert s.handshake_rate_buckets peer_id bucket;
}

-- What follows `entry` in `allow_handshake_attempt`.
unfoldable pub spend_token : ℕ → ℕ → HandshakeRateBucket → Server Bool
spend_token peer_id now bucket s =
    (do
      refill_count ←
          or_panic (divided (now - bucket.last_refill_at) s.config.handshake_rate_refill_interval)
      let full = refilled s.config now refill_count bucket
      modify (put_bucket peer_id (spent full))
      pure (not (full.tokens == 0)))
      s

unfoldable pub allow_handshake_attempt : ℕ → ℕ → Server Bool
allow_handshake_attempt peer_id now s =
    let found = lookup s.handshake_rate_buckets peer_id in
    if not (is_some found) && leb s.config.max_pending_handshakes (length s.handshake_rate_buckets)
    then (returns false, s)
    else spend_token peer_id now (bucket_of s.config now found) s
