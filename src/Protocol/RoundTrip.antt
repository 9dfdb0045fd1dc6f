-- ===== src/Protocol/RoundTrip.antt =====
-- `encode` and `decode` of crates/udp2raw-ng-core/src/protocol.rs, one after the other.
use mathlib.Core.List.{append_assoc}
use udp2raw_ng.Prelude.{
  ℕ, ◌+◌, ◌-◌, ◌^◌, ◌≤◌, ◌<◌, ◌≡◌, refl, sym, ap, ◌∙◌, true, not, Option, none, some, List, [], ◌∷◌,
  ◌++◌, arith, ltb, leb, ◌==◌, Result, ok, ◌>>=◌, ◌>>◌, guard, >>=-eq-ok, guard->>-ok, ok-injective,
  length, length-append, get_or, take, drop, length-take, length-drop, take-append-drop,
  drop-append_eq, drop-drop, take-append_eq, All-take, All-drop, All-get_or,
}
use udp2raw_ng.Prelude.Bytes.{
  be_bytes, from_be, length-be_bytes, IsByte, AreBytes, from_be-be_bytes, be_bytes-from_be,
}
use udp2raw_ng.Prelude.Slices.{slice}
use udp2raw_ng.Errors.{FrameError}
use udp2raw_ng.Protocol.{
  FrameType, frame_type_id, try_from, WireFrame, validate_fields, encoded_header, encode, decode,
  max_frame_body, header_length, handle_word, word_handle, v4_discriminator, read_frame,
  decode_rest,
}
use udp2raw_ng.Protocol.Laws.{try_from_iff, IsTyped, IsHandle, encode_parts}

-- The four bytes that begin a datagram, and the rest of it by its parts.
abbrev laid_out : ℕ → ℕ → List ℕ → List ℕ → List ℕ → List ℕ → List ℕ
laid_out t e s p h body = v4_discriminator ∷ t ∷ e ∷ 0 ∷ ((s ++ (p ++ h)) ++ body)

module _ (t e : ℕ) (s p h body : List ℕ) (hs : length s ≡ 8) (hp : length p ≡ 8)
    (hh : length h ≡ 4) where
  slice-session : slice 4 12 (laid_out t e s p h body) ≡ s
  slice-session =
      ap (take 8) (append_assoc s (p ++ h) body) ∙ take-append_eq 8 s ((p ++ h) ++ body) hs

  drop-session : drop 8 ((s ++ (p ++ h)) ++ body) ≡ p ++ (h ++ body)
  drop-session =
      ap (drop 8) (append_assoc s (p ++ h) body)
      ∙ drop-append_eq 8 s ((p ++ h) ++ body) hs
      ∙ append_assoc p h body

  slice-number : slice 12 20 (laid_out t e s p h body) ≡ p
  slice-number = ap (take 8) drop-session ∙ take-append_eq 8 p (h ++ body) hp

  drop-number : drop 16 ((s ++ (p ++ h)) ++ body) ≡ h ++ body
  drop-number =
      sym (drop-drop 8 8 ((s ++ (p ++ h)) ++ body))
      ∙ ap (drop 8) drop-session
      ∙ drop-append_eq 8 p (h ++ body) hp

  slice-handle : slice 20 24 (laid_out t e s p h body) ≡ h
  slice-handle = ap (take 4) drop-number ∙ take-append_eq 4 h body hh

  drop-header : drop 24 (laid_out t e s p h body) ≡ body
  drop-header =
      sym (drop-drop 16 4 ((s ++ (p ++ h)) ++ body))
      ∙ ap (drop 4) drop-number
      ∙ drop-append_eq 4 h body hh

  length-laid_out : length (laid_out t e s p h body) ≡ 24 + length body
  length-laid_out = omega (
    arith,
    length-append (s ++ (p ++ h)) body,
    length-append s (p ++ h),
    length-append p h,
    hs,
    hp,
    hh,
  )

-- What `decode` makes of a datagram by its parts.
parsed : FrameType → ℕ → List ℕ → List ℕ → List ℕ → List ℕ → WireFrame
parsed t e s p h body = record {
  session_id = from_be s;
  packet_number = from_be p;
  epoch = e;
  frame_type = t;
  conversation_handle = word_handle (from_be h);
  payload = body;
}

decode-laid_out :
    (t : FrameType) (e : ℕ) (s p h body : List ℕ)
    → length s ≡ 8
    → length p ≡ 8
    → length h ≡ 4
    → length body ≤ max_frame_body
    → validate_fields (parsed t e s p h body) ≡ ok tt
    → decode (laid_out (frame_type_id t) e s p h body) ≡ ok (parsed t e s p h body)
unfolding decode parsed
decode-laid_out t e s p h body hs hp hh small valid =
    let n = frame_type_id t in
    let whole = length-laid_out n e s p h body hs hp hh in
    let long : not (ltb (length (laid_out n e s p h body)) 24) ≡ true = ground (arith, whole) in
    let fits : not (ltb max_frame_body (length (laid_out n e s p h body) - 24)) ≡ true =
      ground (arith, whole) in
    rw (
      long,
      (try_from_iff n t).1 refl,
      fits,
      slice-session n e s p h body hs hp hh,
      slice-number n e s p h body hs hp hh,
      slice-handle n e s p h body hs hp hh,
      drop-header n e s p h body hs hp hh,
      valid,
    )

header_parts :
    (f : WireFrame) (header : List ℕ)
    → encoded_header f ≡ ok header
    → (f.epoch ≤ 255)
      × (header ++ f.payload
          ≡ laid_out
              (frame_type_id f.frame_type)
              f.epoch
              (be_bytes 8 f.session_id)
              (be_bytes 8 f.packet_number)
              (be_bytes 4 (handle_word f.conversation_handle))
              f.payload)
unfolding encoded_header
header_parts f header e =
    let (fits, same) = guard->>-ok (leb f.epoch 255) _ _ e in
    (ground arith, ap (λ (t : List ℕ). t ++ f.payload) (sym (ok-injective same)))

word_handle-handle_word : (o : Option ℕ) → IsHandle o → word_handle (handle_word o) ≡ o
word_handle-handle_word none v = refl
word_handle-handle_word (some h) v = ground arith

handle_word-word_handle : (n : ℕ) → handle_word (word_handle n) ≡ n
handle_word-word_handle n = ground arith

handle_word-lt : (o : Option ℕ) → IsHandle o → handle_word o < 256 ^ 4
handle_word-lt none v = omega arith
handle_word-lt (some h) v = omega (arith, v.1)

parsed_back :
    (f : WireFrame)
    → IsTyped f
    → parsed f.frame_type f.epoch
        (be_bytes 8 f.session_id)
        (be_bytes 8 f.packet_number)
        (be_bytes 4 (handle_word f.conversation_handle))
        f.payload
      ≡ f
unfolding parsed
parsed_back f v =
    let word = handle_word f.conversation_handle in
    simp (
      from_be-be_bytes 8 f.session_id v.session_fits,
      from_be-be_bytes 8 f.packet_number v.number_fits,
      from_be-be_bytes 4 word (handle_word-lt f.conversation_handle v.handle_fits),
      word_handle-handle_word f.conversation_handle v.handle_fits,
    )

-- A frame whose fields are in the ranges of their types is read back from what `encode` wrote for
-- it.
pub decode-encode :
    (f : WireFrame) (bytes : List ℕ) → IsTyped f → encode f ≡ ok bytes → decode bytes ≡ ok f
decode-encode f bytes v e =
    let (valid, small, (header, written, parts)) = encode_parts f bytes e in
    let (fits, layout) = header_parts f header written in
    let back = parsed_back f v in
    rw (parts ∙ layout) (
      decode-laid_out f.frame_type f.epoch _ _ _ f.payload (length-be_bytes 8 f.session_id)
        (length-be_bytes 8 f.packet_number) (length-be_bytes 4 (handle_word f.conversation_handle))
        small (ap validate_fields back ∙ valid)
      ∙ ap ok back)

decode_rest_parts :
    (input : List ℕ) (t : FrameType) (f : WireFrame)
    → decode_rest input t ≡ ok f
    → (get_or input 3 0 ≡ 0)
      × (length input ≤ 24 + max_frame_body)
      × (f ≡ read_frame input t)
      × (validate_fields (read_frame input t) ≡ ok tt)
decode_rest_parts input t f e =
    let frame = read_frame input t in
    let tail : Result FrameError WireFrame = validate_fields frame >> ok frame in
    let fits = not (ltb max_frame_body (length input - header_length)) in
    let (flags, e1) =
      guard->>-ok (get_or input 3 0 == 0) FrameError.reserved_flags
        (guard fits FrameError.payload_too_large >> tail) e in
    let (small, e2) = guard->>-ok fits FrameError.payload_too_large tail e1 in
    let (u, fields, e3) = >>=-eq-ok (validate_fields frame) (λ _. ok frame) e2 in
    (ground (arith, flags), ground (arith, small), sym (ok-injective e3), fields)

-- What `decode` reads, by its parts.
pub decode_parts :
    (input : List ℕ) (f : WireFrame)
    → decode input ≡ ok f
    → (24 ≤ length input)
      × (get_or input 0 0 ≡ v4_discriminator)
      × ((t : FrameType) × (try_from (get_or input 1 0) ≡ ok t) × (decode_rest input t ≡ ok f))
unfolding decode
decode_parts input f e =
    let long = not (ltb (length input) header_length) in
    let magic = get_or input 0 0 == v4_discriminator in
    let tail : Result FrameError WireFrame = try_from (get_or input 1 0) >>= decode_rest input in
    let (enough, e1) =
      guard->>-ok long FrameError.truncated (guard magic FrameError.invalid_magic >> tail) e in
    let (v4, e2) = guard->>-ok magic FrameError.invalid_magic tail e1 in
    (
      ground (arith, enough),
      ground (arith, v4),
      >>=-eq-ok (try_from (get_or input 1 0)) (decode_rest input) e2,
    )

-- A frame whose words are bytes is written as those bytes.
encode-parsed :
    (t : FrameType) (e : ℕ) (s p h body : List ℕ)
    → AreBytes s × AreBytes p × AreBytes h
    → (length s ≡ 8) × (length p ≡ 8) × (length h ≡ 4)
    → e ≤ 255
    → length body ≤ max_frame_body
    → validate_fields (parsed t e s p h body) ≡ ok tt
    → encode (parsed t e s p h body) ≡ ok (laid_out (frame_type_id t) e s p h body)
unfolding encode encoded_header parsed
encode-parsed t e s p h body b n fits small valid =
    let narrow : leb e 255 ≡ true = ground arith in
    let short : not (ltb max_frame_body (length body)) ≡ true = ground arith in
    rw (
      valid,
      short,
      narrow,
      written s 8 b.0 n.0,
      written p 8 b.1 n.1,
      handle_word-word_handle,
      written h 4 b.2 n.2,
    )
  where
    written : (xs : List ℕ) (k : ℕ) → AreBytes xs → length xs ≡ k → be_bytes k (from_be xs) ≡ xs
    written xs k b n = rw (← n) (be_bytes-from_be xs b)

split_body :
    (xs : List ℕ) → xs ≡ (take 8 xs ++ (take 8 (drop 8 xs) ++ take 4 (drop 16 xs))) ++ drop 20 xs
split_body xs =
    let s = take 8 xs in
    let p = take 8 (drop 8 xs) in
    let h = take 4 (drop 16 xs) in
    let last : drop 16 xs ≡ h ++ drop 20 xs =
      sym (take-append-drop 4 (drop 16 xs)) ∙ ap (λ (t : List ℕ). h ++ t) (drop-drop 16 4 xs) in
    let middle : drop 8 xs ≡ p ++ drop 16 xs =
      sym (take-append-drop 8 (drop 8 xs)) ∙ ap (λ (t : List ℕ). p ++ t) (drop-drop 8 8 xs) in
    sym (take-append-drop 8 xs)
    ∙ ap (λ (t : List ℕ). s ++ t) (middle ∙ ap (λ (t : List ℕ). p ++ t) last)
    ∙ ap (λ (t : List ℕ). s ++ t) (sym (append_assoc p h (drop 20 xs)))
    ∙ sym (append_assoc s (p ++ h) (drop 20 xs))

slice_lengths :
    (input : List ℕ)
    → 24 ≤ length input
    → (length (slice 4 12 input) ≡ 8)
      × (length (slice 12 20 input) ≡ 8)
      × (length (slice 20 24 input) ≡ 4)
slice_lengths input long = (
  omega (arith, length-take 8 (drop 4 input), length-drop 4 input),
  omega (arith, length-take 8 (drop 12 input), length-drop 12 input),
  omega (arith, length-take 4 (drop 20 input), length-drop 20 input),
)

layout :
    (input : List ℕ)
    → 24 ≤ length input
    → get_or input 0 0 ≡ v4_discriminator
    → get_or input 3 0 ≡ 0
    → input
      ≡ laid_out
          (get_or input 1 0)
          (get_or input 2 0)
          (slice 4 12 input)
          (slice 12 20 input)
          (slice 20 24 input)
          (drop 24 input)
layout [] long magic flags = absurd (omega arith)
layout (a ∷ []) long magic flags = absurd (omega arith)
layout (a ∷ b ∷ []) long magic flags = absurd (omega arith)
layout (a ∷ b ∷ c ∷ []) long magic flags = absurd (omega arith)
layout (a ∷ b ∷ c ∷ d ∷ rest) long magic flags = λ i. magic i ∷ b ∷ c ∷ flags i ∷ split_body rest i

-- When a datagram of bytes is read as a frame, `encode` writes that datagram for the frame.
pub encode-decode :
    (input : List ℕ) (f : WireFrame) → AreBytes input → decode input ≡ ok f → encode f ≡ ok input
unfolding parsed
encode-decode input f b e =
    let (long, magic, (t, type, rest)) = decode_parts input f e in
    let (flags, small, same, fields) = decode_rest_parts input t f rest in
    let lengths = slice_lengths input long in
    let bytes : (k from : ℕ) → AreBytes (take k (drop from input)) =
      λ k from. All-take IsByte k _ (All-drop IsByte from input b) in
    let epoch : get_or input 2 0 < 256 = All-get_or IsByte input 2 0 (omega arith) b in
    let rest : length (drop 24 input) ≤ max_frame_body =
      omega (arith, length-drop 24 input, small) in
    ap encode same
    ∙ encode-parsed t (get_or input 2 0) (slice 4 12 input) (slice 12 20 input) (slice 20 24 input)
        (drop 24 input) (bytes 8 4, bytes 8 12, bytes 4 20) lengths (omega arith) rest fields
    ∙ ap ok (
        ap
          (λ (n : ℕ).
            laid_out n (get_or input 2 0) (slice 4 12 input) (slice 12 20 input) (slice 20 24 input)
              (drop 24 input))
          (sym ((try_from_iff (get_or input 1 0) t).0 type))
        ∙ sym (layout input long magic flags))
