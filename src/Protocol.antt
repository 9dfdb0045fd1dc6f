-- ===== src/Protocol.antt =====
-- The v4 datagram envelope: crates/udp2raw-ng-core/src/protocol.rs, with the identifiers of
-- crates/udp2raw-ng-core/src/id.rs. A session identifier is a `u64`, a conversation handle or
-- identifier a non-zero `u32`; here they are numbers, and their ranges are predicates.
pub mod Laws
pub mod RoundTrip
pub mod Examples
use udp2raw_ng.Prelude.{
  ℕ, zero, suc, ◌+◌, ◌-◌, ◌^◌, ◌<◌, Bool, true, false, not, ◌&&◌, ◌||◌, Option, none, some, List,
  [], ◌∷◌, ◌++◌, ltb, leb, ◌==◌, if◌then◌else◌, is_some, Result, ok, err, ◌>>=◌, ◌>>◌, guard,
  length, get_or, take, drop,
}
use udp2raw_ng.Prelude.Bytes.{be_bytes, from_be}
use udp2raw_ng.Prelude.Slices.{slice}
use udp2raw_ng.Config.{max_frame_payload_limit}
use udp2raw_ng.Errors.{FrameError}

abbrev pub max_frame_body : ℕ
max_frame_body = max_frame_payload_limit + 32

abbrev pub header_length : ℕ
header_length = 24

abbrev pub v4_discriminator : ℕ
v4_discriminator = 4

pub data FrameType : Type 0 where
  client_hello : FrameType
  server_hello : FrameType
  client_finish : FrameType
  hello_retry : FrameType
  data_frame : FrameType
  close : FrameType
  handshake_ack : FrameType
  resumption_credential : FrameType
  resume_conversation : FrameType
  mtu_probe : FrameType
  mtu_ack : FrameType

unfoldable pub is_handshake : FrameType → Bool
is_handshake client_hello = true
is_handshake server_hello = true
is_handshake client_finish = true
is_handshake hello_retry = true
is_handshake _ = false

unfoldable pub is_protected : FrameType → Bool
is_protected data_frame = true
is_protected close = true
is_protected handshake_ack = true
is_protected resumption_credential = true
is_protected resume_conversation = true
is_protected _ = false

-- `self as u8`
unfoldable pub frame_type_id : FrameType → ℕ
frame_type_id client_hello = 1
frame_type_id server_hello = 2
frame_type_id client_finish = 3
frame_type_id hello_retry = 4
frame_type_id data_frame = 16
frame_type_id close = 18
frame_type_id handshake_ack = 19
frame_type_id resumption_credential = 20
frame_type_id resume_conversation = 21
frame_type_id mtu_probe = 32
frame_type_id mtu_ack = 33

-- `FrameType::try_from`; 17 is listed in the source, with the answer of every other number.
unfoldable pub try_from : ℕ → Result FrameError FrameType
try_from value =
    if value == 1
    then ok client_hello
    else (if value == 2
        then ok server_hello
        else (if value == 3
            then ok client_finish
            else (if value == 4
                then ok hello_retry
                else (if value == 16
                    then ok data_frame
                    else (if value == 17
                        then err (FrameError.unknown_frame_type value)
                        else (if value == 18
                            then ok close
                            else (if value == 19
                                then ok handshake_ack
                                else (if value == 20
                                    then ok resumption_credential
                                    else (if value == 21
                                        then ok resume_conversation
                                        else (if value == 32
                                            then ok mtu_probe
                                            else (if value == 33
                                                then ok mtu_ack
                                                else err
                                                    (FrameError.unknown_frame_type value))))))))))))

pub record WireFrame : Type 0 where
  pub session_id : ℕ
  pub packet_number : ℕ
  pub epoch : ℕ
  pub frame_type : FrameType
  pub conversation_handle : Option ℕ
  pub payload : List ℕ

-- The types whose handle has to be there, and those whose handle has to be absent.
needs_handle : FrameType → Bool
needs_handle data_frame = true
needs_handle resumption_credential = true
needs_handle resume_conversation = true
needs_handle _ = false

forbids_handle : FrameType → Bool
forbids_handle client_hello = true
forbids_handle server_hello = true
forbids_handle client_finish = true
forbids_handle hello_retry = true
forbids_handle handshake_ack = true
forbids_handle _ = false

unfoldable pub validate_fields : WireFrame → Result FrameError (Unit {0})
unfolding needs_handle forbids_handle is_handshake
validate_fields f = do
  guard (not (needs_handle f.frame_type && not (is_some f.conversation_handle)))
      FrameError.invalid_frame_fields
  guard (not (forbids_handle f.frame_type && is_some f.conversation_handle))
      FrameError.invalid_frame_fields
  guard (not (ltb 255 f.epoch)) FrameError.invalid_frame_fields
  guard (not (is_handshake f.frame_type && is_some f.conversation_handle))
      FrameError.invalid_frame_fields
  ok tt

-- `map_or(0, ConversationHandle::get)`
abbrev pub handle_word : Option ℕ → ℕ
handle_word none = 0
handle_word (some h) = h

-- `NonZeroU32::new(raw)`
abbrev pub word_handle : ℕ → Option ℕ
word_handle raw = if raw == 0 then none else some raw

unfoldable pub encoded_header : WireFrame → Result FrameError (List ℕ)
encoded_header f = do
  guard (leb f.epoch 255) FrameError.invalid_frame_fields
  ok (
      v4_discriminator
      ∷ frame_type_id f.frame_type
      ∷ f.epoch
      ∷ 0
      ∷ (be_bytes 8 f.session_id
          ++ (be_bytes 8 f.packet_number ++ be_bytes 4 (handle_word f.conversation_handle))))

unfoldable pub encode : WireFrame → Result FrameError (List ℕ)
encode f = do
  validate_fields f
  guard (not (ltb max_frame_body (length f.payload))) FrameError.payload_too_large
  header ← encoded_header f
  ok (header ++ f.payload)

-- The frame that `decode` builds.
abbrev pub read_frame : List ℕ → FrameType → WireFrame
read_frame input frame_type = record {
  session_id = from_be (slice 4 12 input);
  packet_number = from_be (slice 12 20 input);
  epoch = get_or input 2 0;
  frame_type = frame_type;
  conversation_handle = word_handle (from_be (slice 20 24 input));
  payload = drop header_length input;
}

-- `decode` from the test of the flags on.
abbrev pub decode_rest : List ℕ → FrameType → Result FrameError WireFrame
decode_rest input frame_type = do
  guard (get_or input 3 0 == 0) FrameError.reserved_flags
  guard (not (ltb max_frame_body (length input - header_length))) FrameError.payload_too_large
  validate_fields (read_frame input frame_type)
  ok (read_frame input frame_type)

unfoldable pub decode : List ℕ → Result FrameError WireFrame
decode input = do
  guard (not (ltb (length input) header_length)) FrameError.truncated
  guard (get_or input 0 0 == v4_discriminator) FrameError.invalid_magic
  frame_type ← try_from (get_or input 1 0)
  decode_rest input frame_type
