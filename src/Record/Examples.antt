-- ===== src/Record/Examples.antt =====
-- A record that is sealed and opened, and the theorems on records at it.
use udp2raw_ng.Prelude.{
  ℕ, ◌^◌, ◌<◌, ◌≡◌, refl, none, some, List, [], ◌∷◌, arith, Result, ok, err, replicate,
}
use udp2raw_ng.Prelude.Bytes.{be_bytes, from_be, codes}
use udp2raw_ng.Errors.{RecordError, session_mismatch}
use udp2raw_ng.Config.{cha_cha20_poly1305, wire_id}
use udp2raw_ng.Crypto.{client_to_server, direction_id}
use udp2raw_ng.Crypto.Examples.{toy, toy_laws, checksum}
use udp2raw_ng.Protocol.{
  WireFrame, is_protected, frame_type_id, try_from, validate_fields, encoded_header, encode, decode,
  data_frame,
}
use udp2raw_ng.Replay.{ReplayWindow, new}
use udp2raw_ng.Replay.Refinement.{Represents, new-Represents}
use udp2raw_ng.Record.{
  AuthenticatedFrame, RecordSealer, tag_length, nonce_12, aad_of, encrypt_body, seal_body, seal,
  authenticate, open_record,
}
use udp2raw_ng.Record.Laws.{paired, seal_number, open_record-seal}
use udp2raw_ng.Record.Delivery.{open_record-err}
use udp2raw_ng.Record.Later.{IsReplay, open_all, open_record_later}

abbrev sealer : RecordSealer
sealer = record {
  suite = cha_cha20_poly1305;
  direction = client_to_server;
  session_id = 5;
  next_packet_number = 0;
  keys = record { record_key = replicate 32 1; nonce_prefix = 1 ∷ 2 ∷ 3 ∷ 4 ∷ [] };
}

abbrev window : ReplayWindow
window = record { width = 64; highest = none; words = 0 ∷ [] }

abbrev datagram : List ℕ
datagram = codes "hi"

abbrev delivered : AuthenticatedFrame
delivered = record { frame_type = data_frame; conversation_handle = some 9; plaintext = datagram }

abbrev bytes_of : Result RecordError (List ℕ × RecordSealer) → List ℕ
bytes_of (ok (bytes, s)) = bytes
bytes_of (err e) = []

sealed : List ℕ
unfolding seal seal_body tag_length nonce_12 aad_of encrypt_body encoded_header encode
    validate_fields
sealed = bytes_of (seal toy sealer data_frame (some 9) datagram)

window-Represents : Represents window []
unfolding new
window-Represents = new-Represents 64 window refl

sealed_lem :
    seal toy sealer data_frame (some 9) datagram
    ≡ ok (sealed, record sealer { next_packet_number = 1 })
unfolding sealed seal seal_body is_protected tag_length nonce_12 aad_of encoded_header encode
    validate_fields checksum be_bytes direction_id wire_id frame_type_id
sealed_lem = refl

handle_9 : (0 < 9) × (9 < 2 ^ 32)
handle_9 = (omega arith, omega arith)

seal_number_example :
    ((f : WireFrame) × (decode sealed ≡ ok f) × (f.session_id ≡ 5) × (f.packet_number ≡ 0))
    × (record sealer { next_packet_number = 1 } ≡ record sealer { next_packet_number = 1 })
    × (1 < 2 ^ 64)
seal_number_example =
    seal_number toy toy_laws sealer data_frame (some 9) datagram sealed
      (record sealer { next_packet_number = 1 }) (omega arith) handle_9 (omega arith) sealed_lem

open_record-seal_example : (open_record toy (paired sealer window) sealed).1 ≡ ok delivered
open_record-seal_example =
    open_record-seal toy toy_laws sealer window [] data_frame (some 9) datagram sealed
      (record sealer { next_packet_number = 1 }) (omega arith) handle_9 (omega arith) (omega arith)
      window-Represents refl (λ g h. cc) sealed_lem

-- Datagrams that come between the record and its repetition.
abbrev between : List (List ℕ)
between = codes "noise" ∷ sealed ∷ []

open_record_later_example :
    (n : ℕ) × (authenticate toy (paired sealer window) sealed ≡ ok (n, delivered))
    × IsReplay n
        (open_all toy between (open_record toy (paired sealer window) sealed).0)
        (open_record toy
          (open_all toy between (open_record toy (paired sealer window) sealed).0)
          sealed).1
open_record_later_example =
    open_record_later toy (paired sealer window) sealed between [] delivered window-Represents
      open_record-seal_example

-- The same bytes, at an opener of another session.
stranger_refuses :
    (open_record toy (paired (record sealer { session_id = 6 }) window) sealed).1
    ≡ err session_mismatch
unfolding open_record authenticate decode try_from validate_fields from_be sealed seal seal_body
    is_protected tag_length nonce_12 aad_of encoded_header encode checksum be_bytes direction_id
    wire_id frame_type_id
stranger_refuses = refl

open_record-err_example :
    (open_record toy (paired (record sealer { session_id = 6 }) window) sealed).0
    ≡ paired (record sealer { session_id = 6 }) window
open_record-err_example =
    open_record-err toy (paired (record sealer { session_id = 6 }) window) sealed session_mismatch
      stranger_refuses
