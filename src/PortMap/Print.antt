-- ===== src/PortMap/Print.antt =====
-- `print_portmap`: the texts that go to `info()`, one for each row of the table.
pub mod Table
use vtb.Prelude.{
  ℕ, zero, suc, Bool, List, [], ◌∷◌, ◌++◌, ℤ, pos, negsuc, pos_part, Result, ok, ◌>>=◌, get_at,
  if◌then◌else◌, replicate, Bytes, text, show_int, show_nat,
}
use vtb.Common.Devices.{VhostQueuePair, PortQueuePair, PortMap}
use vtb.Cmdline.Usage.{pad}
use vtb.PortMap.{PMap}

-- Cells from left to right.
row : List Bytes → Bytes
row [] = []
row (cell ∷ cells) = cell ++ row cells

pub header : Bytes
unfolding row pad
header = row (
    pad 8 (text "Port#")
    ∷ pad 6 (text "Vid")
    ∷ pad 8 (text "No Qs")
    ∷ pad 8 (text "QpID")
    ∷ pad 8 (text "RxqId")
    ∷ pad 8 (text "TxqId")
    ∷ pad 10 (text "RxqId_En")
    ∷ pad 10 (text "TxqId_En")
    ∷ pad 8 (text "Ready")
    ∷ pad 8 (text "CtrlId")
    ∷ pad 8 (text "RxqFd")
    ∷ pad 8 (text "TxqFd")
    ∷ text "CtrlFd"
    ∷ [])

abbrev pub rule : Bytes
rule = replicate 110 b'-'

yes_no : Bool → Bytes
yes_no b = if b then text "YES" else text "NO"

-- A socket, or a dash for -1.
show_fd : ℤ → Bytes
show_fd (pos n) = show_int (pos n)
show_fd (negsuc zero) = text "-"
show_fd (negsuc (suc n)) = show_int (negsuc (suc n))

queue_cells : ℤ → VhostQueuePair → List Bytes → List Bytes
unfolding yes_no
queue_cells qpid q rest =
    pad 8 (show_int qpid)
    ∷ pad 8 (show_nat q.rxq_id)
    ∷ pad 8 (show_nat q.txq_id)
    ∷ pad 10 (yes_no q.rxq_enabled)
    ∷ pad 10 (yes_no q.txq_enabled)
    ∷ rest

socket_cells : PortQueuePair → List Bytes → List Bytes
unfolding show_fd
socket_cells q rest = pad 8 (show_fd q.rxq_id) ∷ pad 8 (show_fd q.txq_id) ∷ rest

-- The first row of a port carries what the pairs share.
pub pair_row : ℤ → PortMap → ℕ → ℤ → VhostQueuePair → PortQueuePair → Bytes
unfolding row queue_cells socket_cells
pair_row port_id pm zero qpid vqp pqp = row (
    pad 8 (show_int port_id)
    ∷ pad 6 (show_int pm.vd.vid)
    ∷ pad 8 (show_int pm.vd.nof_queue_pairs)
    ∷ queue_cells qpid vqp (
        pad 8 (yes_no pm.vd.ready)
        ∷ pad 8 (show_nat pm.vd.ctlq_id)
        ∷ socket_cells pqp (show_int pm.pd.ctlq_id ∷ [])))
pair_row port_id pm (suc i) qpid vqp pqp = row (
    pad 22 (text " ")
    ∷ queue_cells qpid vqp (pad 8 (text " ") ∷ pad 8 (text " ") ∷ socket_cells pqp (text " " ∷ [])))

-- The rows of a port from pair `i` on, then a rule.
unfoldable pub port_rows : ℤ → PortMap → ℕ → ℕ → Result (List Bytes)
unfolding pair_row
port_rows port_id pm zero i = ok (rule ∷ [])
port_rows port_id pm (suc rounds) i = do
  vqp ← get_at pm.vd.qp i
  pqp ← get_at pm.pd.qp i
  qpid ← get_at pm.vd.qpid i
  rest ← port_rows port_id pm rounds (suc i)
  ok (pair_row port_id pm i qpid vqp pqp ∷ rest)

unfoldable pub all_rows : PMap → Result (List Bytes)
unfolding port_rows
all_rows [] = ok []
all_rows ((port_id, pm) ∷ pmap) = do
  rows ← port_rows port_id pm (pos_part pm.vd.nof_queue_pairs) 0
  rest ← all_rows pmap
  ok (rows ++ rest)

unfoldable pub print_portmap : PMap → Result (List Bytes)
unfolding all_rows header
print_portmap pmap = do rows ← all_rows pmap; ok (header ∷ rule ∷ rows)
