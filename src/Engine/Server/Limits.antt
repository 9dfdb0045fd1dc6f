-- ===== src/Engine/Server/Limits.antt =====
-- What `allow_handshake_attempt` of crates/udp2raw-ng-core/src/engine.rs allows.
use udp2raw_ng.Prelude.{
  ℕ, ◌+◌, ◌-◌, ◌/◌, ◌≤◌, ◌<◌, ◌≡◌, refl, ◌∙◌, ap, inl, inr, Bool, true, false, not, none, some,
  List, [], ◌∷◌, arith, ◌==◌, leb, min, length, Bool-cases, Option-cases,
}
use udp2raw_ng.Prelude.Maps.{
  Map, lookup, insert, lookup-insert_self, All, All-insert, All-lookup, length-remove,
  length-remove_found,
}
use udp2raw_ng.Config.{EngineConfig}
use udp2raw_ng.Engine.Monad.{Outcome, returns, raises, panics}
use udp2raw_ng.Engine.Rules.{Post, Post-or_panic}
use udp2raw_ng.Engine.Server.{ServerEngine, HandshakeRateBucket}
use udp2raw_ng.Engine.Server.Rate.{
  bucket_of, divided, refilled, spent, put_bucket, spend_token, allow_handshake_attempt,
}

-- As many buckets as pending handshakes at most, and no bucket above the burst.
pub record IsLimited (config : EngineConfig) (buckets : Map HandshakeRateBucket) : Type 0 where
  pub few : length buckets ≤ config.max_pending_handshakes
  pub full : All (λ (b : HandshakeRateBucket). b.tokens ≤ config.handshake_rate_limit_burst) buckets

refilled_tokens :
    (config : EngineConfig) (now n : ℕ) (b : HandshakeRateBucket)
    → b.tokens ≤ config.handshake_rate_limit_burst
    → (refilled config now n b).tokens ≤ config.handshake_rate_limit_burst
unfolding refilled
refilled_tokens config now n b h = elim (Bool-cases (n == 0)) [
  | inl e ↦ rw e h
  | inr e ↦ rw e (omega arith)
]

divided-some : (a b : ℕ) → 0 < b → divided a b ≡ some (a / b)
divided-some a b h = let other : (b == 0) ≡ false = ground arith in rw other

-- What an attempt leaves: other buckets within the limits.
pub record Attempted (s t : ServerEngine) : Type 0 where
  pub rest : t ≡ record s { handshake_rate_buckets = t.handshake_rate_buckets }
  pub limited : IsLimited s.config t.handshake_rate_buckets

spend_token-Attempted :
    (peer_id now : ℕ) (b : HandshakeRateBucket) (s : ServerEngine)
    → 0 < s.config.handshake_rate_refill_interval
    → IsLimited s.config s.handshake_rate_buckets
    → b.tokens ≤ s.config.handshake_rate_limit_burst
    → length (insert s.handshake_rate_buckets peer_id b) ≤ s.config.max_pending_handshakes
    → Post (λ a t. Attempted s t) (λ t. ⊥) (spend_token peer_id now b s)
unfolding spend_token
spend_token-Attempted peer_id now b s positive l h room =
    let n = (now - b.last_refill_at) / s.config.handshake_rate_refill_interval in
    let full = refilled s.config now n b in
    Post-or_panic (λ a t. Attempted s t) (λ t. ⊥)
      (divided (now - b.last_refill_at) s.config.handshake_rate_refill_interval) n _ s
      (divided-some (now - b.last_refill_at) s.config.handshake_rate_refill_interval positive)
      (record {
        rest = refl;
        limited = record {
          few = room;
          full =
              All-insert
                (λ (x : HandshakeRateBucket). x.tokens ≤ s.config.handshake_rate_limit_burst)
                s.handshake_rate_buckets peer_id (spent full) l.full
                (omega (arith, refilled_tokens s.config now n b h));
        };
      })

-- With a refill interval that is not 0, an attempt at a handshake does not panic, changes nothing but
-- the buckets, and keeps them within the limits: as many as pending handshakes are allowed at most, and
-- none with more tokens than the burst.
pub allow_handshake_attempt-Attempted :
    (peer_id now : ℕ) (s : ServerEngine)
    → 0 < s.config.handshake_rate_refill_interval
    → IsLimited s.config s.handshake_rate_buckets
    → Post (λ a t. Attempted s t) (λ t. ⊥) (allow_handshake_attempt peer_id now s)
unfolding allow_handshake_attempt
allow_handshake_attempt-Attempted peer_id now s positive l =
    let m = s.handshake_rate_buckets in
    elim (Option-cases (lookup m peer_id)) [
      | inr (b, e) ↦
          rw (allow_handshake_attempt, e)
            (spend_token-Attempted peer_id now b s positive l
              (All-lookup
                (λ (x : HandshakeRateBucket). x.tokens ≤ s.config.handshake_rate_limit_burst) m
                peer_id b l.full e)
              (omega (arith, l.few, length-remove_found m peer_id b e)))
      | inl e ↦ elim (Bool-cases (leb s.config.max_pending_handshakes (length m))) [
        | inl full ↦ rw (allow_handshake_attempt, e, full) (record { rest = refl; limited = l })
        | inr space ↦
            rw (allow_handshake_attempt, e, space)
              (spend_token-Attempted peer_id now (bucket_of s.config now none) s positive l
                (omega arith) (ground (arith, length-remove m peer_id)))
      ]
    ]

-- Attempts of one peer at some times: how many are allowed.
abbrev pub allowed : Outcome Bool → ℕ
allowed (returns true) = 1
allowed (returns false) = 0
allowed (raises e) = 0
allowed panics = 0

unfoldable pub attempts : ℕ → List ℕ → ServerEngine → ℕ × ServerEngine
attempts peer_id [] s = (0, s)
attempts peer_id (now ∷ rest) s =
    let (answer, s1) = allow_handshake_attempt peer_id now s in
    let (more, s2) = attempts peer_id rest s1 in (allowed answer + more, s2)

abbrev pub AllWithin : ℕ → ℕ → List ℕ → Type 0
AllWithin last interval [] = Unit {0}
AllWithin last interval (now ∷ rest) = (now - last < interval) × AllWithin last interval rest

allowed_by : (n : ℕ) → allowed (returns (not (n == 0))) ≡ min 1 n
allowed_by n = elim (Bool-cases (n == 0)) [
  | inl e ↦ rw e (ground arith)
  | inr e ↦ rw e (ground arith)
]

within_attempt :
    (peer_id now : ℕ) (b : HandshakeRateBucket) (s : ServerEngine)
    → lookup s.handshake_rate_buckets peer_id ≡ some b
    → now - b.last_refill_at < s.config.handshake_rate_refill_interval
    → allow_handshake_attempt peer_id now s
      ≡ (returns (not (b.tokens == 0)), put_bucket peer_id (spent b) s)
unfolding allow_handshake_attempt spend_token refilled
within_attempt peer_id now b s e soon =
    let q : divided (now - b.last_refill_at) s.config.handshake_rate_refill_interval ≡ some 0 =
      divided-some (now - b.last_refill_at) s.config.handshake_rate_refill_interval (omega arith)
      ∙ ap some (grind arith) in
    rw (allow_handshake_attempt, e, q)

-- At times that lie within the refill interval after the last refill of a peer's bucket, the attempts
-- of the peer that are allowed are as many as the bucket has tokens, or all if they are fewer.
pub attempts_limited :
    (peer_id : ℕ) (times : List ℕ) (b : HandshakeRateBucket) (s : ServerEngine)
    → lookup s.handshake_rate_buckets peer_id ≡ some b
    → AllWithin b.last_refill_at s.config.handshake_rate_refill_interval times
    → (attempts peer_id times s).0 ≡ min (length times) b.tokens
unfolding attempts
attempts_limited peer_id [] b s e h = omega arith
attempts_limited peer_id (now ∷ rest) b s e (soon, h) =
    let later =
      attempts_limited peer_id rest (spent b) (put_bucket peer_id (spent b) s)
        (lookup-insert_self s.handshake_rate_buckets peer_id (spent b)) h in
    rw (within_attempt peer_id now b s e soon) (omega (arith, later, allowed_by b.tokens))
