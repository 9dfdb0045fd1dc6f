-- ===== src/Handshake/Hellos.antt =====
-- The frames of client hellos and retries of crates/udp2raw-ng-core/src/handshake.rs. Both begin
-- with the handshake's id, the nonce and the suite.
use mathlib.Core.List.{append_assoc}
use udp2raw_ng.Prelude.{
  ℕ, ◌+◌, ◌-◌, ◌^◌, ◌<◌, ◌≡◌, refl, ap, ◌∙◌, true, ◌||◌, Option, none, some, List, [], ◌∷◌, ◌++◌,
  arith, leb, ◌==◌, if◌then◌else◌, is_some, ok, length, length-append, get_or, take, drop,
  take-append_eq,
}
use udp2raw_ng.Prelude.Bytes.{be_bytes, length-be_bytes, from_be-be_bytes}
use udp2raw_ng.Prelude.Slices.{slice, slice_skip, slice_here, slice_last, get_or_skip, drop_skip}
use udp2raw_ng.Protocol.{frame_type_id}
use udp2raw_ng.Config.{wire_id}
use udp2raw_ng.Handshake.Messages.{
  ClientHello, HelloRetry, HandshakeCookie, ResumptionCredential, flag_byte, client_hello_payload,
  client_hello_frame, decode_client_hello, decode_cookie, decode_resumption, cookie_part,
  resumption_part, retry_unsigned, retry_frame, decode_retry,
}
use udp2raw_ng.Handshake.RoundTrip.{read_suite_back, read_flag_back}

-- The first 48 bytes, and what stands behind them.
module _ (i n xs : List ℕ) (li : length i ≡ 16) (ln : length n ≡ 32) where
  head_length : length (i ++ (n ++ xs)) ≡ 48 + length xs
  head_length = omega (arith, length-append i (n ++ xs), length-append n xs, li, ln)

  head_id : take 16 (i ++ (n ++ xs)) ≡ i
  head_id = take-append_eq 16 i _ li

  head_nonce : slice 16 48 (i ++ (n ++ xs)) ≡ n
  head_nonce = slice_skip 16 16 48 i _ li (omega arith) ∙ slice_here 32 n _ ln

  head_byte : (k j : ℕ) → k ≡ 48 + j → get_or (i ++ (n ++ xs)) k 0 ≡ get_or xs j 0
  head_byte k j h =
      let e : k - 16 - 32 ≡ j = omega (arith, h) in
      get_or_skip 16 k i _ li (omega (arith, h))
      ∙ get_or_skip 32 (k - 16) n _ ln (omega (arith, h))
      ∙ ap (λ (x : ℕ). get_or xs x 0) e

  head_slice :
      (from to a b : ℕ)
      → from ≡ 48 + a
      → to ≡ 48 + b
      → slice from to (i ++ (n ++ xs)) ≡ slice a b xs
  head_slice from to a b hf ht =
      let e1 : from - 16 - 32 ≡ a = omega (arith, hf) in
      let e2 : to - 16 - 32 ≡ b = omega (arith, ht) in
      slice_skip 16 from to i _ li (omega (arith, hf))
      ∙ slice_skip 32 (from - 16) (to - 16) n _ ln (omega (arith, hf))
      ∙ ap (λ (x : ℕ). slice x (to - 16 - 32) xs) e1
      ∙ ap (λ (x : ℕ). slice a x xs) e2

  head_drop : (k j : ℕ) → k ≡ 48 + j → drop k (i ++ (n ++ xs)) ≡ drop j xs
  head_drop k j h =
      let e : k - 16 - 32 ≡ j = omega (arith, h) in
      drop_skip 16 k i _ li (omega (arith, h))
      ∙ drop_skip 32 (k - 16) n _ ln (omega (arith, h))
      ∙ ap (λ (x : ℕ). drop x xs) e

-- The sizes of the arrays and of the time.
pub record IsRetry (r : HelloRetry) : Type 0 where
  pub id_size : length r.handshake_id ≡ 16
  pub nonce_size : length r.client_nonce ≡ 32
  pub time_size : r.cookie.issued_at_ms < 2 ^ 64
  pub cookie_size : length r.cookie.tag ≡ 32
  pub tag_size : length r.auth_tag ≡ 32

-- What stands behind the suite in a retry.
module _ (u g t : List ℕ) (a b : ℕ) (lu : length u ≡ 8) (lg : length g ≡ 32)
    (lt : length t ≡ 32) where
  abbrev retry_rest : List ℕ
  retry_rest = a ∷ (u ++ (g ++ (b ∷ t)))

  retry_rest_size : length retry_rest ≡ 74
  retry_rest_size =
      omega (arith, length-append u (g ++ (b ∷ t)), length-append g (b ∷ t), lu, lg, lt)

  retry_time : slice 1 9 retry_rest ≡ u
  retry_time = slice_skip 1 1 9 (a ∷ []) _ refl (omega arith) ∙ slice_here 8 u _ lu

  retry_cookie : slice 9 41 retry_rest ≡ g
  retry_cookie =
      slice_skip 1 9 41 (a ∷ []) (u ++ (g ++ (b ∷ t))) refl (omega arith)
      ∙ slice_skip 8 8 40 u (g ++ (b ∷ t)) lu (omega arith)
      ∙ slice_here 32 g (b ∷ t) lg

  retry_flag : get_or retry_rest 41 0 ≡ b
  retry_flag =
      get_or_skip 8 40 u (g ++ (b ∷ t)) lu (omega arith)
      ∙ get_or_skip 32 32 g (b ∷ t) lg (omega arith)

  retry_tag : slice 42 74 retry_rest ≡ t
  retry_tag =
      slice_skip 1 42 74 (a ∷ []) (u ++ (g ++ (b ∷ t))) refl (omega arith)
      ∙ slice_skip 8 41 73 u (g ++ (b ∷ t)) lu (omega arith)
      ∙ slice_skip 32 33 65 g (b ∷ t) lg (omega arith)
      ∙ slice_skip 1 1 33 (b ∷ []) t refl (omega arith)
      ∙ slice_last 32 t lt

retry_bytes_flat :
    (i n u g t : List ℕ) (a b : ℕ)
    → (i ++ (n ++ (a ∷ (u ++ (g ++ (b ∷ [])))))) ++ t ≡ i ++ (n ++ (a ∷ (u ++ (g ++ (b ∷ t)))))
retry_bytes_flat i n u g t a b = simp append_assoc

-- A retry whose arrays and time are in range is read back from its frame.
pub decode_retry-frame : (r : HelloRetry) → IsRetry r → decode_retry (retry_frame r) ≡ ok r
unfolding decode_retry retry_frame retry_unsigned frame_type_id
decode_retry-frame r v =
    let i = r.handshake_id in
    let n = r.client_nonce in
    let u = be_bytes 8 r.cookie.issued_at_ms in
    let g = r.cookie.tag in
    let t = r.auth_tag in
    let a = wire_id r.suite in
    let b = flag_byte r.has_resumption in
    let lu = length-be_bytes 8 r.cookie.issued_at_ms in
    let lg = v.cookie_size in
    let lt = v.tag_size in
    let xs = retry_rest u g t a b lu lg lt in
    let li = v.id_size in
    let ln = v.nonce_size in
    let whole : length (i ++ (n ++ xs)) ≡ 122 =
      omega (arith, head_length i n xs li ln, retry_rest_size u g t a b lu lg lt) in
    let size : (length (i ++ (n ++ xs)) == 122) ≡ true = rw whole in
    rw (
      retry_bytes_flat i n u g t a b,
      size,
      head_byte i n xs li ln 48 0 refl,
      head_byte i n xs li ln 89 41 refl,
      retry_flag u g t a b lu lg lt,
      read_suite_back r.suite,
      read_flag_back r.has_resumption,
      head_id i n xs li ln,
      head_nonce i n xs li ln,
      head_slice i n xs li ln 49 57 1 9 refl refl,
      retry_time u g t a b lu lg lt,
      from_be-be_bytes 8 r.cookie.issued_at_ms v.time_size,
      head_slice i n xs li ln 57 89 9 41 refl refl,
      retry_cookie u g t a b lu lg lt,
      head_slice i n xs li ln 90 122 42 74 refl refl,
      retry_tag u g t a b lu lg lt,
    )

-- The sizes of the arrays and of the time.
abbrev pub IsCookie : Option HandshakeCookie → Type 0
IsCookie none = Unit {0}
IsCookie (some cookie) = (cookie.issued_at_ms < 2 ^ 64) × (length cookie.tag ≡ 32)

abbrev pub IsCredential : Option ResumptionCredential → Type 0
IsCredential none = Unit {0}
IsCredential (some credential) = length credential ≡ 92

pub record IsHello (h : ClientHello) : Type 0 where
  pub id_size : length h.handshake_id ≡ 16
  pub nonce_size : length h.client_nonce ≡ 32
  pub cookie_size : IsCookie h.cookie
  pub resumption_size : IsCredential h.resumption

abbrev offset_of : Option HandshakeCookie → ℕ
offset_of cookie = if is_some cookie then 90 else 50

-- The optional parts of a client hello.
module _ (i n r : List ℕ) (s : ℕ) (li : length i ≡ 16) (ln : length n ≡ 32) where
  abbrev hello_bytes : Option HandshakeCookie → List ℕ
  hello_bytes cookie = i ++ (n ++ (s ∷ (cookie_part cookie ++ r)))

  cookie_back :
      (cookie : Option HandshakeCookie)
      → IsCookie cookie
      → 0 < length r
      → decode_cookie (hello_bytes cookie) ≡ ok cookie
  unfolding decode_cookie cookie_part
  cookie_back none v lr = rw (head_byte i n (s ∷ 0 ∷ r) li ln 49 1 refl)
  cookie_back (some cookie) v lr =
      let u = be_bytes 8 cookie.issued_at_ms in
      let g = cookie.tag in
      let lu = length-be_bytes 8 cookie.issued_at_ms in
      let xs = s ∷ 1 ∷ ((u ++ g) ++ r) in
      let long : leb 91 (length (i ++ (n ++ xs))) ≡ true =
        ground
          (arith, head_length i n xs li ln, length-append (u ++ g) r, length-append u g, lu, v.1) in
      let split : (u ++ g) ++ r ≡ u ++ (g ++ r) = append_assoc u g r in
      let time : slice 2 10 xs ≡ u =
        slice_skip 2 2 10 (s ∷ 1 ∷ []) ((u ++ g) ++ r) refl (omega arith)
        ∙ ap (slice 0 8) split
        ∙ slice_here 8 u (g ++ r) lu in
      let tag : slice 10 42 xs ≡ g =
        slice_skip 2 10 42 (s ∷ 1 ∷ []) ((u ++ g) ++ r) refl (omega arith)
        ∙ ap (slice 8 40) split
        ∙ slice_skip 8 8 40 u (g ++ r) lu (omega arith)
        ∙ slice_here 32 g r v.1 in
      rw (
        head_byte i n xs li ln 49 1 refl,
        long,
        head_slice i n xs li ln 50 58 2 10 refl refl,
        time,
        from_be-be_bytes 8 cookie.issued_at_ms v.0,
        head_slice i n xs li ln 58 90 10 42 refl refl,
        tag,
      )

  -- What stands behind the cookie.
  rest_at :
      (cookie : Option HandshakeCookie)
      → IsCookie cookie
      → (get_or (hello_bytes cookie) (offset_of cookie) 0 ≡ get_or r 0 0)
        × (drop (offset_of cookie + 1) (hello_bytes cookie) ≡ drop 1 r)
        × (length (hello_bytes cookie) ≡ offset_of cookie + length r)
  unfolding cookie_part
  rest_at none v = (
    head_byte i n (s ∷ 0 ∷ r) li ln 50 2 refl,
    head_drop i n (s ∷ 0 ∷ r) li ln 51 3 refl,
    omega (arith, head_length i n (s ∷ 0 ∷ r) li ln),
  )
  rest_at (some cookie) v =
      let u = be_bytes 8 cookie.issued_at_ms in
      let g = cookie.tag in
      let xs = s ∷ 1 ∷ ((u ++ g) ++ r) in
      let whole : length (u ++ g) ≡ 40 =
        omega (arith, length-append u g, length-be_bytes 8 cookie.issued_at_ms, v.1) in
      (
        head_byte i n xs li ln 90 42 refl ∙ get_or_skip 40 40 (u ++ g) r whole (omega arith),
        head_drop i n xs li ln 91 43 refl ∙ drop_skip 40 41 (u ++ g) r whole (omega arith),
        omega (arith, head_length i n xs li ln, length-append (u ++ g) r, whole),
      )

resumption_part_nonempty :
    (resumption : Option ResumptionCredential) → 0 < length (resumption_part resumption)
unfolding resumption_part
resumption_part_nonempty none = omega arith
resumption_part_nonempty (some credential) = omega arith

-- The credential is read behind the cookie.
resumption_back :
    (p : List ℕ) (offset : ℕ) (resumption : Option ResumptionCredential)
    → IsCredential resumption
    → get_or p offset 0 ≡ get_or (resumption_part resumption) 0 0
    → drop (offset + 1) p ≡ drop 1 (resumption_part resumption)
    → length p ≡ offset + length (resumption_part resumption)
    → decode_resumption p offset ≡ ok resumption
unfolding decode_resumption resumption_part
resumption_back p offset none v marker behind whole =
    let size : (length p == offset + 1) ≡ true = ground arith in rw (marker, size)
resumption_back p offset (some credential) v marker behind whole =
    let size : (length p == offset + 1 + 92) ≡ true = ground arith in rw (marker, size, behind)

-- One of the four lengths of a client hello.
length_known :
    (n : ℕ) (cookie : Option HandshakeCookie) (resumption : Option ResumptionCredential)
    → IsCredential resumption
    → n ≡ offset_of cookie + length (resumption_part resumption)
    → (n == 51 || (n == 91 || (n == 143 || n == 183))) ≡ true
unfolding resumption_part
length_known n none none v h = rw h
length_known n none (some credential) v h = let e : n ≡ 143 = omega arith in rw e
length_known n (some cookie) none v h = rw h
length_known n (some cookie) (some credential) v h = let e : n ≡ 183 = omega arith in rw e

-- A client hello whose arrays and time are in range is read back from its frame, whether or not it
-- has a cookie and a credential.
pub decode_client_hello-frame :
    (h : ClientHello) → IsHello h → decode_client_hello (client_hello_frame h) ≡ ok h
unfolding decode_client_hello client_hello_frame client_hello_payload frame_type_id
decode_client_hello-frame h v =
    let i = h.handshake_id in
    let n = h.client_nonce in
    let r = resumption_part h.resumption in
    let s = wire_id h.suite in
    let li = v.id_size in
    let ln = v.nonce_size in
    let p = hello_bytes i n r s li ln h.cookie in
    let xs = s ∷ (cookie_part h.cookie ++ r) in
    let (marker, behind, whole) = rest_at i n r s li ln h.cookie v.cookie_size in
    rw (
      length_known (length p) h.cookie h.resumption v.resumption_size whole,
      head_byte i n xs li ln 48 0 refl,
      read_suite_back h.suite,
      cookie_back i n r s li ln h.cookie v.cookie_size (resumption_part_nonempty h.resumption),
      resumption_back p (offset_of h.cookie) h.resumption v.resumption_size marker behind whole,
      head_id i n xs li ln,
      head_nonce i n xs li ln,
    )
