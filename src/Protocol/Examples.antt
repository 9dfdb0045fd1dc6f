-- ===== src/Protocol/Examples.antt =====
-- A frame of data, its 26 bytes, and the theorems on frames at it.
use udp2raw_ng.Prelude.{
  ℕ, ◌+◌, ◌≤◌, ◌≡◌, ◌↔◌, refl, arith, some, List, [], ◌∷◌, ◌++◌, ok, err, length,
}
use udp2raw_ng.Prelude.Bytes.{be_bytes, from_be, AreBytes}
use udp2raw_ng.Errors.{reserved_flags}
use udp2raw_ng.Protocol.{
  WireFrame, frame_type_id, try_from, validate_fields, encoded_header, encode, decode,
  header_length, data_frame,
}
use udp2raw_ng.Protocol.Laws.{IsTyped, IsWritable, validate_fields-ok_iff, length-encode}
use udp2raw_ng.Protocol.RoundTrip.{decode-encode, encode-decode}

abbrev frame : WireFrame
frame = record {
  session_id = 258;
  packet_number = 3;
  epoch = 0;
  frame_type = data_frame;
  conversation_handle = some 9;
  payload = 104 ∷ 105 ∷ [];
}

abbrev datagram : List ℕ
datagram =
    4 ∷ 16 ∷ 0 ∷ 0 ∷ 0 ∷ 0 ∷ 0 ∷ 0 ∷ 0 ∷ 0 ∷ 1 ∷ 2 ∷ 0 ∷ 0 ∷ 0 ∷ 0 ∷ 0 ∷ 0 ∷ 0 ∷ 3 ∷ 0 ∷ 0 ∷ 0 ∷ 9
    ∷ 104 ∷ 105 ∷ []

frame-IsTyped : IsTyped frame
frame-IsTyped = record {
  session_fits = omega arith;
  number_fits = omega arith;
  handle_fits = (omega arith, omega arith);
  payload_bytes = (omega arith, (omega arith, tt));
}

encoded : encode frame ≡ ok datagram
unfolding encode encoded_header validate_fields frame_type_id be_bytes
encoded = refl

decoded : decode datagram ≡ ok frame
unfolding decode try_from validate_fields from_be
decoded = refl

-- The same bytes with a flag.
flagged :
    decode (4 ∷ 16 ∷ 0 ∷ 1 ∷ (be_bytes 8 258 ++ (be_bytes 8 3 ++ be_bytes 4 9)))
    ≡ err reserved_flags
unfolding decode try_from be_bytes
flagged = refl

decode-encode_example : decode datagram ≡ ok frame
decode-encode_example = decode-encode frame datagram frame-IsTyped encoded

datagram-AreBytes : AreBytes datagram
datagram-AreBytes = ground arith

encode-decode_example : encode frame ≡ ok datagram
encode-decode_example = encode-decode datagram frame datagram-AreBytes decoded

length-encode_example : (length datagram ≡ header_length + 2) × (length datagram ≤ 1206)
length-encode_example = length-encode frame datagram encoded

validate_fields-ok_iff_example : (validate_fields frame ≡ ok tt) ↔ IsWritable frame
validate_fields-ok_iff_example = validate_fields-ok_iff frame
