-- ===== src/Common/Wire/Packets.antt =====
-- Messages survive the byte stream.
use vtb.Prelude.{
  FitsInt, ℕ, ◌+◌, ◌*◌, ◌/◌, ◌%◌, ◌^◌, ◌<◌, ◌≡◌, refl, ◌∙◌, ap, List, [], ◌∷◌, ◌++◌, ℤ, pos, negsuc,
  map, length, arith, Bytes,
}
use mathlib.Core.Path.{ap₂}
use vtb.Common.Devices.{PortDeviceRingState}
use vtb.Common.Wire.{
  encode_int, decode_int, encode, decode, stream, packets, message_size, take, drop, word, unword,
}

pub record Fits (m : PortDeviceRingState) : Type 0 where
  pub meta : FitsInt m.meta
  pub port_id : FitsInt m.port_id
  pub device_id : FitsInt m.device_id
  pub qid : FitsInt m.qid
  pub enable : FitsInt m.enable

bytes_word :
    (w : ℕ)
    → w < 2 ^ 32
    → w % 256 + w / 2 ^ 8 % 256 * 2 ^ 8 + w / 2 ^ 16 % 256 * 2 ^ 16 + w / 2 ^ 24 % 256 * 2 ^ 24 ≡ w
bytes_word w h = omega arith

word_lt : (a : ℤ) → FitsInt a → word a < 2 ^ 32
word_lt (pos n) h = omega arith
word_lt (negsuc n) h = omega arith

unword-word : (a : ℤ) → FitsInt a → unword (word a) ≡ a
unword-word (pos n) h = ground arith
unword-word (negsuc n) h = ground arith

decode_int-encode_int : (a : ℤ) (s : Bytes) → FitsInt a → decode_int (encode_int a ++ s) ≡ a
unfolding decode_int encode_int
decode_int-encode_int a s h = ap unword (bytes_word (word a) (word_lt a h)) ∙ unword-word a h

-- A message that was written is read back as it was, if its integers have 32 bits.
pub decode-encode : (m : PortDeviceRingState) (s : Bytes) → Fits m → decode (encode m ++ s) ≡ m
unfolding decode encode encode_int
decode-encode m s f =
    let fifth = encode_int m.enable ++ s in
    let fourth = encode_int m.qid ++ fifth in
    let third = encode_int m.device_id ++ fourth in
    let second = encode_int m.port_id ++ third in
    λ i. record {
      meta = decode_int-encode_int m.meta second f.meta i;
      port_id = decode_int-encode_int m.port_id third f.port_id i;
      device_id = decode_int-encode_int m.device_id fourth f.device_id i;
      qid = decode_int-encode_int m.qid fifth f.qid i;
      enable = decode_int-encode_int m.enable s f.enable i;
    }

pub length-encode : (m : PortDeviceRingState) → length (encode m) ≡ message_size
unfolding encode encode_int
length-encode m = refl

take-encode : (m : PortDeviceRingState) (s : Bytes) → take message_size (encode m ++ s) ≡ encode m
unfolding encode encode_int
take-encode m s = refl

drop-encode : (m : PortDeviceRingState) (s : Bytes) → drop message_size (encode m ++ s) ≡ s
unfolding encode encode_int
drop-encode m s = refl

pub packets-stream :
    (ms : List PortDeviceRingState) → packets (length ms) (stream ms) ≡ map encode ms
unfolding packets stream
packets-stream [] = refl
packets-stream (m ∷ ms) =
    ap₂ ◌∷◌ (take-encode m (stream ms))
      (ap (packets (length ms)) (drop-encode m (stream ms)) ∙ packets-stream ms)
