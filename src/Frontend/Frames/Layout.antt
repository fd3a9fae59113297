-- ===== src/Frontend/Frames/Layout.antt =====
-- The bytes of a frame.
use mathlib.Core.List.{append_assoc}
use vtb.Prelude.{
  ℕ, zero, suc, ◌+◌, ◌/◌, ◌%◌, ◌≤◌, ◌≡◌, refl, sym, ◌∙◌, ap, [], ◌∷◌, ◌++◌, true, Bytes, length,
  length-append, replicate, leb, ok, arith,
}
use vtb.Common.Wire.{take, drop}
use vtb.Frontend.Frames.{EtherHeader, Mbuf, write_bytes, write_frame, fill_frame}

-- The header as the network has it: the destination first, and the type with its high byte first.
pub record IsEthernet (h : EtherHeader) : Type 0 where
  pub dst : h.dst_at ≡ 0
  pub src : h.src_at ≡ 6
  pub type : h.type_at ≡ 12
  pub whole : h.size ≡ 14
  pub kind : h.ipv4 ≡ 0x0800
  pub order : (n : ℕ) → h.be16 n ≡ n / 256 ∷ n % 256 ∷ []

take-length-append : (n : ℕ) (xs ys : Bytes) → length xs ≡ n → take n (xs ++ ys) ≡ xs
take-length-append zero [] ys h = refl
take-length-append zero (x ∷ xs) ys h = absurd (omega arith)
take-length-append (suc n) [] ys h = absurd (omega arith)
take-length-append (suc n) (x ∷ xs) ys h =
    ap (λ zs. x ∷ zs) (take-length-append n xs ys (omega arith))

drop-length-append : (n : ℕ) (xs ys : Bytes) → length xs ≡ n → drop n (xs ++ ys) ≡ ys
drop-length-append zero [] ys h = refl
drop-length-append zero (x ∷ xs) ys h = absurd (omega arith)
drop-length-append (suc n) [] ys h = absurd (omega arith)
drop-length-append (suc n) (x ∷ xs) ys h = drop-length-append n xs ys (omega arith)

take-drop : (n : ℕ) (xs : Bytes) → take n xs ++ drop n xs ≡ xs
take-drop zero xs = refl
take-drop (suc n) [] = refl
take-drop (suc n) (x ∷ xs) = ap (λ zs. x ∷ zs) (take-drop n xs)

length-take : (n : ℕ) (xs : Bytes) → n ≤ length xs → length (take n xs) ≡ n
length-take zero xs h = refl
length-take (suc n) [] h = absurd (omega arith)
length-take (suc n) (x ∷ xs) h = ap suc (length-take n xs (omega arith))

length-drop : (n : ℕ) (xs : Bytes) → n ≤ length xs → n + length (drop n xs) ≡ length xs
length-drop n xs h =
    omega
      (arith, length-take n xs h, length-append (take n xs) (drop n xs), ap length (take-drop n xs))

-- A write over a part of the room that is as long.
write_bytes-parts :
    (at : ℕ) (bs room front old back : Bytes)
    → room ≡ front ++ (old ++ back)
    → length front ≡ at
    → length old ≡ length bs
    → write_bytes at bs room ≡ ok (front ++ (bs ++ back))
unfolding write_bytes
write_bytes-parts at bs room front old back e f o =
    let size : length (front ++ (old ++ back)) ≡ length front + (length old + length back) =
      omega (arith, length-append front (old ++ back), length-append old back) in
    let fits : leb (at + length bs) (length (front ++ (old ++ back))) ≡ true =
      ground (arith, size) in
    let behind : drop (at + length bs) (front ++ (old ++ back)) ≡ back =
      ap (drop (at + length bs)) (sym (append_assoc front old back))
      ∙ drop-length-append (at + length bs) (front ++ old) back
          (omega (arith, length-append front old)) in
    rw e (rw (fits, take-length-append at front (old ++ back) f, behind) refl)

-- What a frame is: 48 bytes of metadata, the two addresses, the type of IPv4, and behind them what
-- was in the room before.
abbrev pub framed : Bytes × Bytes → Mbuf → Mbuf
framed (src, dst) m = record m {
  room = replicate 48 0xAA ++ (dst ++ (src ++ ((0x08 ∷ 0x00 ∷ []) ++ drop 62 m.room)));
  data_len = 108;
  pkt_len = 108;
}

-- The four parts of the room that are written over.
record Parts (room : Bytes) : Type 0 where
  pub meta : Bytes
  pub first : Bytes
  pub second : Bytes
  pub kind : Bytes
  pub all : room ≡ meta ++ (first ++ (second ++ (kind ++ drop 62 room)))
  pub sizes : (length meta ≡ 48) × (length first ≡ 6) × (length second ≡ 6) × (length kind ≡ 2)

drop-nil : (n : ℕ) → drop {A = ℕ} n [] ≡ []
drop-nil zero = refl
drop-nil (suc n) = refl

drop-drop : (m n : ℕ) (xs : Bytes) → drop n (drop m xs) ≡ drop (m + n) xs
drop-drop zero n xs = ap (λ k. drop k xs) (omega arith)
drop-drop (suc m) n [] = drop-nil n ∙ sym (drop-nil (suc m + n))
drop-drop (suc m) n (x ∷ xs) =
    drop-drop m n xs
    ∙ ap (λ k. drop k (x ∷ xs)) (let e : suc (m + n) ≡ suc m + n = omega arith in e)

Parts-room : (room : Bytes) → 62 ≤ length room → Parts room
Parts-room room h =
    let r1 = drop 48 room in
    let r2 = drop 6 r1 in
    let r3 = drop 6 r2 in
    let d1 : 48 + length r1 ≡ length room = length-drop 48 room (omega arith) in
    let d2 : 6 + length r2 ≡ length r1 = length-drop 6 r1 (omega arith) in
    let d3 : 6 + length r3 ≡ length r2 = length-drop 6 r2 (omega arith) in
    let end : drop 2 r3 ≡ drop 62 room =
      ap (drop 2) (ap (drop 6) (drop-drop 48 6 room) ∙ drop-drop 54 6 room) ∙ drop-drop 60 2 room in
    record {
      meta = take 48 room;
      first = take 6 r1;
      second = take 6 r2;
      kind = take 2 r3;
      all = sym (
          ap (λ z. take 48 room ++ (take 6 r1 ++ (take 6 r2 ++ (take 2 r3 ++ z)))) (sym end)
          ∙ ap (λ z. take 48 room ++ (take 6 r1 ++ (take 6 r2 ++ z))) (take-drop 2 r3)
          ∙ ap (λ z. take 48 room ++ (take 6 r1 ++ z)) (take-drop 6 r2)
          ∙ ap (λ z. take 48 room ++ z) (take-drop 6 r1)
          ∙ take-drop 48 room);
      sizes = (
        length-take 48 room (omega arith),
        length-take 6 r1 (omega arith),
        length-take 6 r2 (omega arith),
        length-take 2 r3 (omega arith),
      );
    }

-- The four writes, over parts of any bytes.
write_frame-parts :
    (h : EtherHeader) (meta src dst kind a b c d back room : Bytes)
    → IsEthernet h
    → (length a ≡ 48) × (length b ≡ 6) × (length c ≡ 6) × (length d ≡ 2)
    → (length meta ≡ 48) × (length dst ≡ 6) × (length src ≡ 6) × (length kind ≡ 2)
    → room ≡ a ++ (b ++ (c ++ (d ++ back)))
    → write_frame h meta src dst kind room ≡ ok (meta ++ (dst ++ (src ++ (kind ++ back))))
unfolding write_frame
write_frame-parts h meta src dst kind a b c d back room std old new e =
    rw (write_bytes-parts 0 meta room [] a (b ++ (c ++ (d ++ back))) e refl (omega arith)) (
      rw
        (write_bytes-parts (48 + h.src_at) src (meta ++ (b ++ (c ++ (d ++ back)))) (meta ++ b) c
          (d ++ back) (sym (append_assoc meta b (c ++ (d ++ back))))
          (omega (arith, length-append meta b, std.src)) (omega arith))
        (rw
          (write_bytes-parts (48 + h.dst_at) dst ((meta ++ b) ++ (src ++ (d ++ back))) meta b
            (src ++ (d ++ back)) (append_assoc meta b (src ++ (d ++ back))) (omega (arith, std.dst))
            (omega arith))
          (write_bytes-parts (48 + h.type_at) kind (meta ++ (dst ++ (src ++ (d ++ back))))
              (meta ++ (dst ++ src)) d back (simp append_assoc)
              (omega (arith, length-append meta (dst ++ src), length-append dst src, std.type))
              (omega arith)
            ∙ ap ok (simp append_assoc))))

-- The body of the loop makes a frame.
pub fill_frame-framed :
    (h : EtherHeader) (src dst : Bytes) (m : Mbuf)
    → IsEthernet h
    → length src ≡ 6
    → length dst ≡ 6
    → 62 ≤ length m.room
    → fill_frame h src dst m ≡ ok (framed (src, dst) m)
unfolding fill_frame
fill_frame-framed h src dst m std ls ld room =
    let ps = Parts-room m.room room in
    let kind : h.be16 h.ipv4 ≡ 0x08 ∷ 0x00 ∷ [] = rw (std.order, std.kind) refl in
    let written =
      write_frame-parts h (replicate 48 0xAA) src dst (0x08 ∷ 0x00 ∷ []) ps.meta ps.first ps.second
        ps.kind (drop 62 m.room) m.room std ps.sizes (refl, ld, ls, refl) ps.all in
    rw kind (rw written (rw std.whole refl))
