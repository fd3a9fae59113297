-- ===== src/Frontend/Frames.antt =====
-- The frames of CustomFrontend::send_burst (frontend/frontend.cpp). An mbuf is its number, the bytes
-- of its room and its two lengths; the Ethernet header is DPDK's, and a parameter.
pub mod Layout
use vtb.Prelude.{
  ℕ, zero, suc, ◌+◌, ◌%◌, ◌≤◌, ◌≡◌, List, [], ◌∷◌, ◌++◌, Option, none, some, Bytes, length,
  replicate, leb, if◌then◌else◌, Result, ok, undefined, ◌>>=◌,
}
use vtb.Common.Wire.{take, drop}

abbrev pub priv_data_size : ℕ
priv_data_size = 48

-- struct rte_ether_hdr: where its members stand and its size; RTE_ETHER_TYPE_IPV4; and the bytes of
-- what rte_cpu_to_be_16 returns.
pub record EtherHeader : Type 0 where
  pub dst_at : ℕ
  pub src_at : ℕ
  pub type_at : ℕ
  pub size : ℕ
  pub ipv4 : ℕ
  pub be16 : ℕ → Bytes

pub record Mbuf : Type 0 where
  pub id : ℕ
  pub room : Bytes
  pub data_len : ℕ
  pub pkt_len : ℕ

-- A write into the room; past its end the behaviour is undefined.
pub write_bytes : ℕ → Bytes → Bytes → Result Bytes
write_bytes at bs room =
    if leb (at + length bs) (length room)
    then ok (take at room ++ (bs ++ drop (at + length bs) room))
    else undefined

-- The four writes of a frame: the metadata, the two addresses, the type.
pub write_frame : EtherHeader → Bytes → Bytes → Bytes → Bytes → Bytes → Result Bytes
unfolding write_bytes
write_frame h meta src dst kind room = do
  with_meta ← write_bytes 0 meta room
  with_src ← write_bytes (priv_data_size + h.src_at) src with_meta
  with_dst ← write_bytes (priv_data_size + h.dst_at) dst with_src
  write_bytes (priv_data_size + h.type_at) kind with_dst

-- The body of the loop for an mbuf that is there, with the two random addresses.
pub fill_frame : EtherHeader → Bytes → Bytes → Mbuf → Result Mbuf
unfolding write_frame
fill_frame h src dst m = do
  frame ← write_frame h (replicate priv_data_size 0xAA) src dst (h.be16 h.ipv4) m.room
  ok (record m {
    room = frame;
    data_len = (priv_data_size + h.size + 46) % 65536;
    pkt_len = (priv_data_size + h.size + 46) % 65536;
  })

-- One round of the loop: `continue` leaves the null pointer in its slot.
unfoldable pub fill_slot : EtherHeader → Bytes × Bytes → Option Mbuf → Result (Option Mbuf)
unfolding fill_frame
fill_slot h macs none = ok none
fill_slot h (src, dst) (some m) = fill_frame h src dst m >>= λ m'. ok (some m')

-- The rounds that are left, and `i`. What the pool and the source of random addresses answer is
-- given for each round.
unfoldable pub alloc_burst :
    EtherHeader → (ℕ → Bytes × Bytes) → (ℕ → Option Mbuf) → ℕ → ℕ → Result (List (Option Mbuf))
unfolding fill_slot
alloc_burst h macs alloc zero i = ok []
alloc_burst h macs alloc (suc rounds) i = do
  p ← fill_slot h (macs i) (alloc i)
  ps ← alloc_burst h macs alloc rounds (suc i)
  ok (p ∷ ps)
