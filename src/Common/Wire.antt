-- ===== src/Common/Wire.antt =====
-- The bytes of a `PortDeviceRingState` on the abstract socket. The program has no codec: `send_packet`
-- (inc/common.h) writes the struct as it lies in memory, and the worker of
-- src/port_controller_loopback.cpp reads it into `pdrs_`, on the same host. `encode` and `decode` are
-- that representation: five 32-bit integers without padding, the least significant byte first.
pub mod Packets
use vtb.Prelude.{
  ℕ, zero, suc, ◌+◌, ◌-◌, ◌*◌, ◌/◌, ◌%◌, ◌^◌, List, [], ◌∷◌, ◌++◌, ℤ, pos, negsuc, ltb,
  if◌then◌else◌, Bytes, ◌≡◌, some, get_elem?,
}
use vtb.Common.Devices.{PortDeviceRingState}

-- `sizeof(PortDeviceRingState)`
abbrev pub message_size : ℕ
message_size = 20

-- Two's complement.
abbrev pub word : ℤ → ℕ
word (pos n) = n
word (negsuc n) = 2 ^ 32 - suc n

abbrev pub unword : ℕ → ℤ
unword w = if ltb w (2 ^ 31) then pos w else negsuc (2 ^ 32 - suc w)

abbrev pub word_bytes : ℕ → Bytes
word_bytes w = w % 256 ∷ w / 2 ^ 8 % 256 ∷ w / 2 ^ 16 % 256 ∷ w / 2 ^ 24 % 256 ∷ []

unfoldable pub encode_int : ℤ → Bytes
encode_int a = word_bytes (word a)

-- The integer that the first four bytes hold.
unfoldable pub decode_int : Bytes → ℤ
decode_int (a ∷ b ∷ c ∷ d ∷ rest) = unword (a + b * 2 ^ 8 + c * 2 ^ 16 + d * 2 ^ 24)
decode_int _ = pos 0

abbrev pub drop {ℓ} : {A : Type ℓ} → ℕ → List A → List A
drop zero xs = xs
drop (suc n) [] = []
drop (suc n) (x ∷ xs) = drop n xs

-- The elements from the `i`th on.
pub drop-get_elem? {ℓ} :
    {A : Type ℓ} (i : ℕ) (xs : List A) (x : A)
    → get_elem? xs i ≡ some x
    → drop i xs ≡ x ∷ drop (suc i) xs
drop-get_elem? zero [] x e = cc
drop-get_elem? zero (y ∷ xs) x e = cc
drop-get_elem? (suc i) [] x e = cc
drop-get_elem? (suc i) (y ∷ xs) x e = drop-get_elem? i xs x e

unfoldable pub encode : PortDeviceRingState → Bytes
encode m =
    encode_int m.meta
    ++ (encode_int m.port_id
        ++ (encode_int m.device_id ++ (encode_int m.qid ++ encode_int m.enable)))

unfoldable pub decode : Bytes → PortDeviceRingState
decode s = record {
  meta = decode_int s;
  port_id = decode_int (drop 4 s);
  device_id = decode_int (drop 8 s);
  qid = decode_int (drop 12 s);
  enable = decode_int (drop 16 s);
}

-- What lies behind the first `n` bytes, and these bytes.
abbrev pub take {ℓ} : {A : Type ℓ} → ℕ → List A → List A
take zero xs = []
take (suc n) [] = []
take (suc n) (x ∷ xs) = x ∷ take n xs

-- The stream after a list of messages was written.
unfoldable pub stream : List PortDeviceRingState → Bytes
stream [] = []
stream (m ∷ ms) = encode m ++ stream ms

-- What `n` calls of `read` return that each take as many bytes as `pdrs_` holds.
unfoldable pub packets : ℕ → Bytes → List Bytes
packets zero s = []
packets (suc n) s = take message_size s ∷ packets n (drop message_size s)
