-- ===== src/Handshake/RoundTrip.antt =====
-- The frames of server hellos and client finishes of crates/udp2raw-ng-core/src/handshake.rs.
use mathlib.Core.List.{append_assoc}
use udp2raw_ng.Prelude.{
  ℕ, ◌+◌, ◌-◌, ◌≡◌, ◌≢◌, refl, ap, ◌∙◌, Bool, true, false, List, [], ◌∷◌, ◌++◌, arith, ◌==◌, ok,
  map_err, ne→nonzero, length, length-append, get_or, take, take-append_eq,
}
use udp2raw_ng.Prelude.Slices.{slice, slice_skip, slice_here, slice_last, get_or_skip}
use udp2raw_ng.Errors.{malformed}
use udp2raw_ng.Protocol.{frame_type_id}
use udp2raw_ng.Config.{CipherSuite, wire_id, from_wire_id}
use udp2raw_ng.Config.Laws.{from_wire_id_iff}
use udp2raw_ng.Handshake.Messages.{
  ServerHello, ClientFinish, flag_byte, read_flag, server_hello_unsigned, server_hello_payload,
  server_hello_frame, decode_server_hello, client_finish_frame, decode_client_finish,
}

pub read_suite_back : (s : CipherSuite) → map_err (λ _. malformed) (from_wire_id (wire_id s)) ≡ ok s
read_suite_back s = ap (map_err (λ _. malformed)) ((from_wire_id_iff (wire_id s) s).1 refl)

pub read_flag_back : (b : Bool) → read_flag (flag_byte b) ≡ ok b
read_flag_back true = refl
read_flag_back false = refl

-- The sizes of the arrays.
pub record IsFinish (f : ClientFinish) : Type 0 where
  pub id_size : length f.handshake_id ≡ 16
  pub tag_size : length f.auth_tag ≡ 32

-- A client finish whose arrays have their sizes is read back from its frame for a session other
-- than zero.
pub decode_client_finish-frame :
    (f : ClientFinish) (session_id : ℕ)
    → IsFinish f
    → session_id ≢ 0
    → decode_client_finish (client_finish_frame f session_id) ≡ ok f
unfolding decode_client_finish client_finish_frame frame_type_id
decode_client_finish-frame f session_id v h =
    let whole : length (f.handshake_id ++ f.auth_tag) ≡ 48 =
      omega (arith, length-append f.handshake_id f.auth_tag, v.id_size, v.tag_size) in
    let size : (length (f.handshake_id ++ f.auth_tag) == 48) ≡ true = rw whole in
    rw (
      ne→nonzero session_id h,
      size,
      take-append_eq 16 f.handshake_id f.auth_tag v.id_size,
      slice_skip 16 16 48 f.handshake_id f.auth_tag v.id_size (omega arith),
      slice_last 32 f.auth_tag v.tag_size,
    )

-- The sizes of the arrays.
pub record IsServerHello (s : ServerHello) : Type 0 where
  pub id_size : length s.handshake_id ≡ 16
  pub client_size : length s.client_nonce ≡ 32
  pub server_size : length s.server_nonce ≡ 32
  pub salt_size : length s.session_salt ≡ 32
  pub tag_size : length s.auth_tag ≡ 32

-- The places of the payload of a server hello.
module _ (i n m k t : List ℕ) (a b : ℕ) (li : length i ≡ 16) (ln : length n ≡ 32)
    (lm : length m ≡ 32) (lk : length k ≡ 32) (lt : length t ≡ 32) where
  abbrev hello_bytes : List ℕ
  hello_bytes = (i ++ (n ++ (m ++ (k ++ (a ∷ b ∷ []))))) ++ t

  abbrev hello_flat : List ℕ
  hello_flat = i ++ (n ++ (m ++ (k ++ (a ∷ b ∷ t))))

  hello_bytes_flat : hello_bytes ≡ hello_flat
  hello_bytes_flat = simp append_assoc

  hello_size : length hello_flat ≡ 146
  hello_size = omega (
    arith,
    length-append i (n ++ (m ++ (k ++ (a ∷ b ∷ t)))),
    length-append n (m ++ (k ++ (a ∷ b ∷ t))),
    length-append m (k ++ (a ∷ b ∷ t)),
    length-append k (a ∷ b ∷ t),
    li,
    ln,
    lm,
    lk,
    lt,
  )

  hello_id : take 16 hello_flat ≡ i
  hello_id = take-append_eq 16 i _ li

  hello_nonce : slice 16 48 hello_flat ≡ n
  hello_nonce = slice_skip 16 16 48 i _ li (omega arith) ∙ slice_here 32 n _ ln

  hello_server : slice 48 80 hello_flat ≡ m
  hello_server =
      slice_skip 16 48 80 i _ li (omega arith)
      ∙ slice_skip 32 32 64 n _ ln (omega arith)
      ∙ slice_here 32 m _ lm

  hello_salt : slice 80 112 hello_flat ≡ k
  hello_salt =
      slice_skip 16 80 112 i _ li (omega arith)
      ∙ slice_skip 32 64 96 n _ ln (omega arith)
      ∙ slice_skip 32 32 64 m _ lm (omega arith)
      ∙ slice_here 32 k _ lk

  -- What stands behind the first four parts.
  hello_rest : (j : ℕ) → get_or hello_flat (112 + j) 0 ≡ get_or (a ∷ b ∷ t) j 0
  hello_rest j =
      let e1 : 112 + j - 16 - 32 - 32 - 32 ≡ j = omega arith in
      get_or_skip 16 (112 + j) i _ li (omega arith)
      ∙ get_or_skip 32 (112 + j - 16) n _ ln (omega arith)
      ∙ get_or_skip 32 (112 + j - 16 - 32) m _ lm (omega arith)
      ∙ get_or_skip 32 (112 + j - 16 - 32 - 32) k _ lk (omega arith)
      ∙ ap (λ (x : ℕ). get_or (a ∷ b ∷ t) x 0) e1

  hello_tag : slice 114 146 hello_flat ≡ t
  hello_tag =
      slice_skip 16 114 146 i _ li (omega arith)
      ∙ slice_skip 32 98 130 n _ ln (omega arith)
      ∙ slice_skip 32 66 98 m _ lm (omega arith)
      ∙ slice_skip 32 34 66 k _ lk (omega arith)
      ∙ slice_skip 2 2 34 (a ∷ b ∷ []) t refl (omega arith)
      ∙ slice_last 32 t lt

-- A server hello whose arrays have their sizes is read back from its frame for a session other
-- than zero.
pub decode_server_hello-frame :
    (s : ServerHello) (session_id : ℕ)
    → IsServerHello s
    → session_id ≢ 0
    → decode_server_hello (server_hello_frame s session_id) ≡ ok s
unfolding decode_server_hello server_hello_frame server_hello_payload server_hello_unsigned
    frame_type_id
decode_server_hello-frame s session_id v h =
    let i = s.handshake_id in
    let n = s.client_nonce in
    let m = s.server_nonce in
    let k = s.session_salt in
    let t = s.auth_tag in
    let a = wire_id s.suite in
    let b = flag_byte s.resumed in
    let li = v.id_size in
    let ln = v.client_size in
    let lm = v.server_size in
    let lk = v.salt_size in
    let lt = v.tag_size in
    let size : (length (hello_flat i n m k t a b li ln lm lk lt) == 146) ≡ true =
      rw (hello_size i n m k t a b li ln lm lk lt) in
    rw (
      ne→nonzero session_id h,
      hello_bytes_flat i n m k t a b li ln lm lk lt,
      size,
      hello_rest i n m k t a b li ln lm lk lt 0,
      hello_rest i n m k t a b li ln lm lk lt 1,
      read_suite_back s.suite,
      read_flag_back s.resumed,
      hello_id i n m k t a b li ln lm lk lt,
      hello_nonce i n m k t a b li ln lm lk lt,
      hello_server i n m k t a b li ln lm lk lt,
      hello_salt i n m k t a b li ln lm lk lt,
      hello_tag i n m k t a b li ln lm lk lt,
    )
