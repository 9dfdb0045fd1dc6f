-- ===== src/Protocol/Laws.antt =====
-- The frame types, and which frames crates/udp2raw-ng-core/src/protocol.rs can write.
use udp2raw_ng.Prelude.{
  ℕ, ◌+◌, ◌^◌, ◌≤◌, ◌<◌, ◌≡◌, ◌↔◌, ◌⊎◌, true, not, Option, none, some, List, ◌++◌, arith, ltb,
  is_some, ok, length, length-append, ap, >>=-eq-ok, guard->>-ok,
}
use udp2raw_ng.Prelude.Bytes.{be_bytes, length-be_bytes, AreBytes}
use udp2raw_ng.Protocol.{
  FrameType, is_handshake, frame_type_id, try_from, WireFrame, validate_fields, encoded_header,
  encode, max_frame_body, header_length, handle_word, data_frame, handshake_ack,
  resumption_credential, resume_conversation,
}

-- A type's number is read back as the type, and no other number is read.
pub try_from_iff : (n : ℕ) (t : FrameType) → (try_from n ≡ ok t) ↔ (n ≡ frame_type_id t)
unfolding try_from frame_type_id
try_from_iff n t = (λ h. ground arith, λ e. ground arith)

-- The ranges that the Rust types give for nothing.
abbrev pub IsHandle : Option ℕ → Type 0
IsHandle none = Unit {0}
IsHandle (some h) = (0 < h) × (h < 2 ^ 32)

pub record IsTyped (f : WireFrame) : Type 0 where
  pub session_fits : f.session_id < 2 ^ 64
  pub number_fits : f.packet_number < 2 ^ 64
  pub handle_fits : IsHandle f.conversation_handle
  pub payload_bytes : AreBytes f.payload

-- The header has 24 bytes, so a frame takes 24 bytes more than its payload.
pub length-encoded_header :
    (f : WireFrame) (bytes : List ℕ) → encoded_header f ≡ ok bytes → length bytes ≡ header_length
unfolding encoded_header
length-encoded_header f bytes e = ground (
  arith,
  length-append (be_bytes 8 f.session_id)
      (be_bytes 8 f.packet_number ++ be_bytes 4 (handle_word f.conversation_handle)),
  length-append (be_bytes 8 f.packet_number) (be_bytes 4 (handle_word f.conversation_handle)),
  length-be_bytes 8 f.session_id,
  length-be_bytes 8 f.packet_number,
  length-be_bytes 4 (handle_word f.conversation_handle),
)

-- The parts of a frame that was written.
pub encode_parts :
    (f : WireFrame) (bytes : List ℕ)
    → encode f ≡ ok bytes
    → (validate_fields f ≡ ok tt)
      × (length f.payload ≤ max_frame_body)
      × ((header : List ℕ) × (encoded_header f ≡ ok header) × (bytes ≡ header ++ f.payload))
unfolding encode
encode_parts f bytes e =
    let (u, fields, rest) = >>=-eq-ok (validate_fields f) _ e in
    let (fits, rest') = guard->>-ok (not (ltb max_frame_body (length f.payload))) _ _ rest in
    let (header, written, last) = >>=-eq-ok (encoded_header f) _ rest' in
    (fields, ground arith, (header, written, ground arith))

-- A frame that is written takes 24 bytes more than its payload, and 1206 at most.
pub length-encode :
    (f : WireFrame) (bytes : List ℕ)
    → encode f ≡ ok bytes
    → (length bytes ≡ header_length + length f.payload) × (length bytes ≤ 1206)
length-encode f bytes e =
    let (fields, fits, (header, written, parts)) = encode_parts f bytes e in
    omega (
      arith,
      ap length parts,
      length-append header f.payload,
      length-encoded_header f header written,
    )

-- What `validate_fields` asks of a frame.
pub record IsWritable (f : WireFrame) : Type 0 where
  pub epoch_fits : f.epoch ≤ 255
  pub named :
      (f.frame_type ≡ data_frame)
        ⊎ (f.frame_type ≡ resumption_credential)
        ⊎ (f.frame_type ≡ resume_conversation)
      → is_some f.conversation_handle ≡ true
  pub unnamed :
      (is_handshake f.frame_type ≡ true) ⊎ (f.frame_type ≡ handshake_ack)
      → f.conversation_handle ≡ none

-- The fields of a frame pass exactly if frames of data and of resumption name a conversation,
-- those of the handshake and its acknowledgement name none, and the epoch is a byte.
pub validate_fields-ok_iff : (f : WireFrame) → (validate_fields f ≡ ok tt) ↔ IsWritable f
unfolding validate_fields is_handshake
validate_fields-ok_iff f = (λ h. ground arith, λ v. ground arith)
