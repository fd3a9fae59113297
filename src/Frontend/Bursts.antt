-- ===== src/Frontend/Bursts.antt =====
-- What becomes of the mbufs of a burst.
use vtb.Prelude.{
  ℕ, zero, suc, ◌+◌, ◌-◌, ◌<◌, ◌≤◌, ◌≡◌, refl, sym, ◌∙◌, ap, List, [], ◌∷◌, ◌++◌, Option, none,
  some, ltb, lt→ltb, length, get_elem?, get_elem?-of_lt, arith, Bool-cases, inl, inr, Bytes, ok,
  throws, undefined, Result, ◌>>=◌, Bool, true, false, ◌||◌, if◌then◌else◌,
}
use vtb.Common.Wire.{take, drop, drop-get_elem?}
use vtb.Frontend.{TxBurst, burst_size, freed_by, free_all, send_burst, receive_burst}
use vtb.Frontend.Frames.{EtherHeader, Mbuf, fill_slot, alloc_burst}
use vtb.Frontend.Frames.Layout.{IsEthernet, framed, fill_frame-framed}

-- The slot of a round: a frame with the addresses of that round, or the null pointer.
abbrev pub slot : Bytes × Bytes → Option Mbuf → Option Mbuf
slot macs none = none
slot macs (some m) = some (framed macs m)

abbrev pub slots : (ℕ → Bytes × Bytes) → (ℕ → Option Mbuf) → ℕ → ℕ → List (Option Mbuf)
slots macs alloc zero i = []
slots macs alloc (suc rounds) i = slot (macs i) (alloc i) ∷ slots macs alloc rounds (suc i)

-- Addresses have six bytes, and the room of an mbuf has space for the header.
abbrev pub HasSpace : Option Mbuf → Type 0
HasSpace none = Unit {0}
HasSpace (some m) = 62 ≤ length m.room

pub record IsUsable (macs : ℕ → Bytes × Bytes) (alloc : ℕ → Option Mbuf) : Type 0 where
  pub addresses : (i : ℕ) → (length (macs i).0 ≡ 6) × (length (macs i).1 ≡ 6)
  pub space : (i : ℕ) → HasSpace (alloc i)

fill_slot-slot :
    (h : EtherHeader) (macs : Bytes × Bytes) (p : Option Mbuf)
    → IsEthernet h
    → (length macs.0 ≡ 6) × (length macs.1 ≡ 6)
    → HasSpace p
    → fill_slot h macs p ≡ ok (slot macs p)
unfolding fill_slot
fill_slot-slot h (src, dst) none std l space = refl
fill_slot-slot h (src, dst) (some m) std l space =
    rw (fill_frame-framed h src dst m std l.0 l.1 space)

alloc_burst-slots :
    (h : EtherHeader) (macs : ℕ → Bytes × Bytes) (alloc : ℕ → Option Mbuf) (rounds i : ℕ)
    → IsEthernet h
    → IsUsable macs alloc
    → alloc_burst h macs alloc rounds i ≡ ok (slots macs alloc rounds i)
unfolding alloc_burst
alloc_burst-slots h macs alloc zero i std ready = refl
alloc_burst-slots h macs alloc (suc rounds) i std ready =
    rw (fill_slot-slot h (macs i) (alloc i) std (ready.addresses i) (ready.space i))
      (rw (alloc_burst-slots h macs alloc rounds (suc i) std ready))

length-slots :
    (macs : ℕ → Bytes × Bytes) (alloc : ℕ → Option Mbuf) (rounds i : ℕ)
    → length (slots macs alloc rounds i) ≡ rounds
length-slots macs alloc zero i = refl
length-slots macs alloc (suc rounds) i = ap suc (length-slots macs alloc rounds (suc i))

slots-get_elem? :
    (macs : ℕ → Bytes × Bytes) (alloc : ℕ → Option Mbuf) (rounds i j : ℕ)
    → j < rounds
    → get_elem? (slots macs alloc rounds i) j ≡ some (slot (macs (i + j)) (alloc (i + j)))
slots-get_elem? macs alloc zero i j h = elim h [ ]
slots-get_elem? macs alloc (suc rounds) i zero h =
    ap (λ k. some (slot (macs k) (alloc k))) (omega arith)
slots-get_elem? macs alloc (suc rounds) i (suc j) h =
    slots-get_elem? macs alloc rounds (suc i) j (omega arith)
    ∙ ap (λ k. some (slot (macs k) (alloc k))) (omega arith)

freed_by-cons :
    (p : Option Mbuf) (ps : List (Option Mbuf))
    → freed_by (p ∷ []) ++ freed_by ps ≡ freed_by (p ∷ ps)
freed_by-cons none ps = refl
freed_by-cons (some m) ps = refl

freed_by-take-drop :
    (n : ℕ) (ps : List (Option Mbuf)) → freed_by (take n ps) ++ freed_by (drop n ps) ≡ freed_by ps
freed_by-take-drop zero ps = refl
freed_by-take-drop (suc n) [] = refl
freed_by-take-drop (suc n) (none ∷ ps) = freed_by-take-drop n ps
freed_by-take-drop (suc n) (some m ∷ ps) = ap (λ qs. m.id ∷ qs) (freed_by-take-drop n ps)

free_all-take :
    (rounds i : ℕ) (ps : List (Option Mbuf))
    → i + rounds ≤ length ps
    → free_all rounds i ps ≡ ok (freed_by (take rounds (drop i ps)))
unfolding free_all
free_all-take zero i ps h = refl
free_all-take (suc rounds) i ps h =
    let (p, e) = get_elem?-of_lt ps i (omega arith) in
    rw (e, drop-get_elem? i ps p e)
      (rw (free_all-take rounds (suc i) ps (omega arith)) (ap ok (freed_by-cons p _)))

take-all : (n : ℕ) (ps : List (Option Mbuf)) → length ps ≤ n → take n ps ≡ ps
take-all zero [] h = refl
take-all zero (p ∷ ps) h = elim h [ ]
take-all (suc n) [] h = refl
take-all (suc n) (p ∷ ps) h = ap (λ qs. p ∷ qs) (take-all n ps (omega arith))

drop-all : (n : ℕ) (ps : List (Option Mbuf)) → length ps ≤ n → drop n ps ≡ []
drop-all zero [] h = refl
drop-all zero (p ∷ ps) h = elim h [ ]
drop-all (suc n) [] h = refl
drop-all (suc n) (p ∷ ps) h = drop-all n ps (omega arith)

length-drop : (n : ℕ) (ps : List (Option Mbuf)) → length (drop n ps) ≡ length ps - n
length-drop zero ps = omega arith
length-drop (suc n) [] = omega arith
length-drop (suc n) (p ∷ ps) = omega (arith, length-drop n ps)

-- The mbufs that the pool gives for a burst.
abbrev pub allocated : (ℕ → Option Mbuf) → ℕ → ℕ → List ℕ
allocated alloc zero i = []
allocated alloc (suc rounds) i = freed_by (alloc i ∷ []) ++ allocated alloc rounds (suc i)

freed_by-slot :
    (macs : Bytes × Bytes) (p : Option Mbuf) → freed_by (slot macs p ∷ []) ≡ freed_by (p ∷ [])
freed_by-slot macs none = refl
freed_by-slot macs (some m) = refl

freed_by-slots :
    (macs : ℕ → Bytes × Bytes) (alloc : ℕ → Option Mbuf) (rounds i : ℕ)
    → freed_by (slots macs alloc rounds i) ≡ allocated alloc rounds i
freed_by-slots macs alloc zero i = refl
freed_by-slots macs alloc (suc rounds) i =
    sym (freed_by-cons (slot (macs i) (alloc i)) (slots macs alloc rounds (suc i)))
    ∙ rw (freed_by-slot (macs i) (alloc i), freed_by-slots macs alloc rounds (suc i))

-- The rest of a burst.
unsent :
    (sent : ℕ) (ps : List (Option Mbuf))
    → length ps ≡ burst_size
    → (if ltb sent burst_size then free_all (burst_size - sent) sent ps else ok [])
      ≡ ok (freed_by (drop sent ps))
unsent sent ps size = elim (Bool-cases (ltb sent burst_size)) [
  | inl fewer ↦ rw fewer (
      free_all-take (burst_size - sent) sent ps (ground arith)
      ∙ ap (λ qs. ok (freed_by qs))
          (take-all (burst_size - sent) (drop sent ps) (omega (arith, length-drop sent ps))))
  | inr all ↦ rw all (ap (λ qs. ok (freed_by qs)) (sym (drop-all sent ps (ground arith))))
]

-- DPDK wants a burst of mbufs: a null pointer among them is undefined behaviour.
abbrev pub has_null : List (Option Mbuf) → Bool
has_null [] = false
has_null (none ∷ ps) = true
has_null (some m ∷ ps) = has_null ps

abbrev pub is_dry : Option Mbuf → Bool
is_dry none = true
is_dry (some m) = false

-- The pool gives no mbuf in one of these rounds.
abbrev pub runs_dry : (ℕ → Option Mbuf) → ℕ → ℕ → Bool
runs_dry alloc zero i = false
runs_dry alloc (suc rounds) i = is_dry (alloc i) || runs_dry alloc rounds (suc i)

has_null-slot :
    (macs : Bytes × Bytes) (p : Option Mbuf) (ps : List (Option Mbuf))
    → has_null (slot macs p ∷ ps) ≡ (is_dry p || has_null ps)
has_null-slot macs none ps = refl
has_null-slot macs (some m) ps = refl

has_null-slots :
    (macs : ℕ → Bytes × Bytes) (alloc : ℕ → Option Mbuf) (rounds i : ℕ)
    → has_null (slots macs alloc rounds i) ≡ runs_dry alloc rounds i
has_null-slots macs alloc zero i = refl
has_null-slots macs alloc (suc rounds) i =
    has_null-slot (macs i) (alloc i) (slots macs alloc rounds (suc i))
    ∙ ap (λ b. is_dry (alloc i) || b) (has_null-slots macs alloc rounds (suc i))

abbrev pub burst_of : ℕ → List (Option Mbuf) → TxBurst
burst_of port_id pkts = record { port_id = port_id; queue_id = 0; pkts = pkts; nb_pkts = 32 }

-- What is left when the device has taken some of the packets.
abbrev pub rest_freed : TxBurst → ℕ → Result (TxBurst × List ℕ)
rest_freed burst sent = ok (burst, freed_by (drop sent burst.pkts))

abbrev freed_loop : TxBurst → List (Option Mbuf) → ℕ → Result (TxBurst × List ℕ)
freed_loop burst pkts sent = do
  freed ← (if ltb sent burst_size then free_all (burst_size - sent) sent pkts else ok [])
  ok (burst, freed)

after_tx :
    (burst : TxBurst) (r : Result ℕ)
    → length burst.pkts ≡ burst_size
    → (r >>= freed_loop burst burst.pkts) ≡ (r >>= rest_freed burst)
after_tx burst (ok sent) size = rw (unsent sent burst.pkts size)
after_tx burst (throws e) size = refl
after_tx burst undefined size = refl

-- With an Ethernet header of the usual layout, six-byte addresses, and mbufs that have room for 62
-- bytes. `send_burst` makes one call to the device: on queue 0 of the port, with 32 slots, which
-- hold in order a frame for each mbuf that the pool gave (48 bytes of metadata, the destination, the
-- source and the type of IPv4, and behind them what was in the mbuf before, at the length 108), and
-- a null pointer for each round in which the pool gave none; so a null pointer is handed to the
-- device exactly if the pool runs dry, and what follows is then as the device has it. Where the
-- device answers, the mbufs behind those that it took are freed; these and the ones it took are, in
-- order, all that the pool gave.
pub send_burst-slots :
    (h : EtherHeader) (macs : ℕ → Bytes × Bytes) (alloc : ℕ → Option Mbuf)
    (tx_burst : TxBurst → Result ℕ) (port_id : ℕ)
    → IsEthernet h
    → IsUsable macs alloc
    → (pkts : List (Option Mbuf)) × (send_burst h macs alloc tx_burst port_id
        ≡ (tx_burst (burst_of port_id pkts) >>= rest_freed (burst_of port_id pkts)))
      × (length pkts ≡ 32)
      × ((i : ℕ) → i < 32 → get_elem? pkts i ≡ some (slot (macs i) (alloc i)))
      × (has_null pkts ≡ runs_dry alloc 32 0)
      × ((sent : ℕ) → freed_by (take sent pkts) ++ freed_by (drop sent pkts) ≡ allocated alloc 32 0)
unfolding send_burst
send_burst-slots h macs alloc tx_burst port_id std ready =
    let pkts = slots macs alloc burst_size 0 in
    let size = length-slots macs alloc burst_size 0 in
    (
      pkts,
      rw (alloc_burst-slots h macs alloc burst_size 0 std ready)
          (after_tx (burst_of port_id pkts) (tx_burst (burst_of port_id pkts)) size),
      size,
      λ i l.
          slots-get_elem? macs alloc burst_size 0 i l
          ∙ ap (λ j. some (slot (macs j) (alloc j))) (let e : 0 + i ≡ i = omega arith in e),
      has_null-slots macs alloc burst_size 0,
      λ sent. freed_by-take-drop sent pkts ∙ freed_by-slots macs alloc burst_size 0,
    )

-- The packets that `receive_burst` got are freed once each and in order, when there are no more of
-- them than slots.
pub receive_burst-freed_by :
    (pkts : List (Option Mbuf)) (rcved : ℕ)
    → rcved ≤ length pkts
    → receive_burst pkts rcved ≡ ok (freed_by (take rcved pkts))
unfolding receive_burst
receive_burst-freed_by pkts zero h = refl
receive_burst-freed_by pkts (suc n) h =
    rw (lt→ltb 0 (suc n) (omega arith)) (free_all-take (suc n) 0 pkts (omega arith))
