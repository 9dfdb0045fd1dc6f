-- ===== src/Crypto/Examples.antt =====
-- Primitives that meet `PrimitiveLaws`, for the tests: a checksum in place of each tag. The calls
-- they stand for are those of crates/udp2raw-ng-core/src/crypto.rs and record.rs.
use udp2raw_ng.Prelude.{
  ℕ, zero, suc, ◌+◌, ◌*◌, ◌%◌, ◌<◌, ◌≡◌, ◌↔◌, refl, sym, ap, ◌∙◌, true, none, some, List, [], ◌∷◌,
  ◌++◌, arith, if◌then◌else◌, length, replicate, length-replicate, ◌=bytes◌, =bytes_refl,
  =bytes_sound,
}
use udp2raw_ng.Prelude.Bytes.{AreBytes}
use udp2raw_ng.Config.{CipherSuite}
use udp2raw_ng.Crypto.{Primitives, PrimitiveLaws}

unfoldable pub sum_from : ℕ → List ℕ → ℕ
sum_from acc [] = acc
sum_from acc (x ∷ xs) = sum_from ((acc * 31 + x) % 256) xs

unfoldable pub checksum : ℕ → List ℕ → List ℕ
unfolding sum_from
checksum n xs = replicate n (sum_from 7 xs % 256)

abbrev pub toy : Primitives
toy = record {
  hmac = λ key text. some (checksum 32 (key ++ text));
  hmac_verify = λ key text tag. some (checksum 32 (key ++ text) =bytes tag);
  sha256 = checksum 32;
  hkdf_expand = λ salt ikm info n. some (checksum n (salt ++ (ikm ++ info)));
  cipher_new = λ s key. true;
  encrypt = λ s key nonce aad body. some (body, checksum 16 (key ++ (nonce ++ (aad ++ body))));
  decrypt = λ s key nonce aad body tag.
      if checksum 16 (key ++ (nonce ++ (aad ++ body))) =bytes tag then some body else none;
}

replicate-AreBytes : (n b : ℕ) → b < 256 → AreBytes (replicate n b)
replicate-AreBytes zero b h = tt
replicate-AreBytes (suc n) b h = (h, replicate-AreBytes n b h)

checksum-AreBytes : (n : ℕ) (xs : List ℕ) → AreBytes (checksum n xs)
unfolding checksum
checksum-AreBytes n xs = replicate-AreBytes n (sum_from 7 xs % 256) (omega arith)

length-checksum : (n : ℕ) (xs : List ℕ) → length (checksum n xs) ≡ n
unfolding checksum
length-checksum n xs = length-replicate n (sum_from 7 xs % 256)

some-injective' : {A : Type 0} {a b : A} → some a ≡ some b → a ≡ b
some-injective' h = cc

-- The tag and its check agree.
toy_verify :
    (key text tag : List ℕ)
    → (toy.hmac_verify key text tag ≡ some true) ↔ (toy.hmac key text ≡ some tag)
toy_verify key text tag = (
  λ h. ap some (=bytes_sound (checksum 32 (key ++ text)) tag (some-injective' h)),
  λ h. ap some (
      ap (λ (t : List ℕ). checksum 32 (key ++ text) =bytes t) (sym (some-injective' h))
      ∙ =bytes_refl (checksum 32 (key ++ text))),
)

toy_encrypt :
    (s : CipherSuite) (key nonce aad body out tag : List ℕ)
    → AreBytes body
    → toy.encrypt s key nonce aad body ≡ some (out, tag)
    → (length out ≡ length body) × (length tag ≡ 16) × AreBytes out × AreBytes tag
toy_encrypt s key nonce aad body out tag b h =
    let pair = some-injective' h in
    let (same, made) : (body ≡ out) × (checksum 16 (key ++ (nonce ++ (aad ++ body))) ≡ tag) =
      (ap (λ (p : List ℕ × List ℕ). p.0) pair, ap (λ (p : List ℕ × List ℕ). p.1) pair) in
    rw (← same, ← made)
      (
        refl,
        length-checksum 16 (key ++ (nonce ++ (aad ++ body))),
        b,
        checksum-AreBytes 16 (key ++ (nonce ++ (aad ++ body))),
      )

toy_decrypt :
    (s : CipherSuite) (key nonce aad body out tag : List ℕ)
    → toy.encrypt s key nonce aad body ≡ some (out, tag)
    → toy.decrypt s key nonce aad out tag ≡ some body
toy_decrypt s key nonce aad body out tag h =
    let pair = some-injective' h in
    let same : body ≡ out = ap (λ (p : List ℕ × List ℕ). p.0) pair in
    let made : checksum 16 (key ++ (nonce ++ (aad ++ body))) ≡ tag =
      ap (λ (p : List ℕ × List ℕ). p.1) pair in
    rw (← same, ← made, =bytes_refl (checksum 16 (key ++ (nonce ++ (aad ++ body)))))

pub toy_laws : PrimitiveLaws toy
toy_laws = record {
  hmac_tag_shape = λ key text tag h.
      rw (← some-injective' h)
        (length-checksum 32 (key ++ text), checksum-AreBytes 32 (key ++ text));
  verify_iff = toy_verify;
  encrypt_shape = toy_encrypt;
  decrypt_encrypt = toy_decrypt;
}
