-- ===== src/PortMap/Print/Table.antt =====
-- The table that `print_portmap` is to print, column by column, and that its header and rows are
-- those of the table.
use mathlib.Core.List.{append-nil}
use vtb.Prelude.{
  ℕ, zero, suc, ◌-◌, ◌≡◌, refl, ap, Bool, true, false, not, ◌&&◌, List, [], ◌∷◌, ◌++◌, ℤ, pos,
  negsuc, int_eq, ◌==◌, if◌then◌else◌, replicate, length, Bytes, text, show_int, show_nat, arith,
}
use vtb.Common.Devices.{VhostQueuePair, PortQueuePair, PortMap}
use vtb.Cmdline.Usage.{pad}
use vtb.PortMap.Print.{row, yes_no, show_fd, queue_cells, socket_cells, header, pair_row}

-- What one line is about: a queue pair of a port.
pub record Line : Type 0 where
  pub port_id : ℤ
  pub pm : PortMap
  pub qpid : ℤ
  pub vqp : VhostQueuePair
  pub pqp : PortQueuePair

-- A column. What is `shared` by the pairs of a port is shown in the port's first line only.
pub record Column : Type 0 where
  pub width : ℕ
  pub title : Bytes
  pub shared : Bool
  pub cell : Line → Bytes

abbrev answer : Bool → Bytes
answer true = text "YES"
answer false = text "NO"

-- A socket that is not assigned is shown as a dash.
abbrev socket : ℤ → Bytes
socket fd = if fd == negsuc 0 then text "-" else show_int fd

abbrev column : ℕ → Bytes → (Line → Bytes) → Column
column width title cell = record { width = width; title = title; shared = false; cell = cell }

abbrev shared_column : ℕ → Bytes → (Line → Bytes) → Column
shared_column width title cell = record { width = width; title = title; shared = true; cell = cell }

-- The last column is not filled up.
abbrev pub columns : List Column
columns =
    shared_column 8 (text "Port#") (λ l. show_int l.port_id)
    ∷ shared_column 6 (text "Vid") (λ l. show_int l.pm.vd.vid)
    ∷ shared_column 8 (text "No Qs") (λ l. show_int l.pm.vd.nof_queue_pairs)
    ∷ column 8 (text "QpID") (λ l. show_int l.qpid)
    ∷ column 8 (text "RxqId") (λ l. show_nat l.vqp.rxq_id)
    ∷ column 8 (text "TxqId") (λ l. show_nat l.vqp.txq_id)
    ∷ column 10 (text "RxqId_En") (λ l. answer l.vqp.rxq_enabled)
    ∷ column 10 (text "TxqId_En") (λ l. answer l.vqp.txq_enabled)
    ∷ shared_column 8 (text "Ready") (λ l. answer l.pm.vd.ready)
    ∷ shared_column 8 (text "CtrlId") (λ l. show_nat l.pm.vd.ctlq_id)
    ∷ column 8 (text "RxqFd") (λ l. socket l.pqp.rxq_id)
    ∷ column 8 (text "TxqFd") (λ l. socket l.pqp.txq_id)
    ∷ shared_column 0 (text "CtrlFd") (λ l. show_int l.pm.pd.ctlq_id)
    ∷ []

abbrev shown : Bool → Line → Column → Bytes
shown first l c = if not first && c.shared then text " " else c.cell l

-- The cells below one another, each filled up to the width of its column.
abbrev aligned : (Column → Bytes) → List Column → Bytes
aligned cell [] = []
aligned cell (c ∷ cs) = pad c.width (cell c) ++ aligned cell cs

abbrev pub titles : Bytes
titles = aligned (λ c. c.title) columns

abbrev pub dashes : Bytes
dashes = replicate 110 b'-'

abbrev pub line : Bool → Line → Bytes
line first l = aligned (shown first l) columns

-- The lines of `n` pairs, from the lists of what each pair has.
abbrev pub port_lines :
    ℤ → PortMap → Bool → ℕ → List VhostQueuePair → List PortQueuePair → List ℤ → List Bytes
port_lines port_id pm first zero qs ps ids = []
port_lines port_id pm first (suc n) [] ps ids = []
port_lines port_id pm first (suc n) (q ∷ qs) [] ids = []
port_lines port_id pm first (suc n) (q ∷ qs) (p ∷ ps) [] = []
port_lines port_id pm first (suc n) (q ∷ qs) (p ∷ ps) (i ∷ ids) =
    line first (record { port_id = port_id; pm = pm; qpid = i; vqp = q; pqp = p })
    ∷ port_lines port_id pm false n qs ps ids

pad-zero : (s : Bytes) → pad 0 s ≡ s ++ []
unfolding pad
pad-zero s = ap (λ n. s ++ replicate n b' ') (let e : 0 - length s ≡ 0 = omega arith in e)

show_fd-socket : (fd : ℤ) → show_fd fd ≡ socket fd
unfolding show_fd
show_fd-socket (pos n) = refl
show_fd-socket (negsuc zero) = refl
show_fd-socket (negsuc (suc n)) = ground arith

yes_no-answer : (b : Bool) → yes_no b ≡ answer b
unfolding yes_no
yes_no-answer true = refl
yes_no-answer false = refl

pub header-titles : header ≡ titles
unfolding header row pad
header-titles = refl

abbrev pub is_first : ℕ → Bool
is_first zero = true
is_first (suc i) = false

pub pair_row-line :
    (port_id : ℤ) (pm : PortMap) (i : ℕ) (qpid : ℤ) (q : VhostQueuePair) (p : PortQueuePair)
    → pair_row port_id pm i qpid q p
      ≡ line (is_first i) (record { port_id = port_id; pm = pm; qpid = qpid; vqp = q; pqp = p })
unfolding pair_row row queue_cells socket_cells
pair_row-line port_id pm zero qpid q p = simp (show_fd-socket, yes_no-answer, pad-zero, append-nil)
pair_row-line port_id pm (suc i) qpid q p =
    simp (show_fd-socket, yes_no-answer, pad-zero, append-nil) (unfold pad in refl)
