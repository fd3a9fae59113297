-- ===== src/Logger.antt =====
-- Logger (inc/logger.h, src/logger.cpp) and the log streams (inc/messenger.h, src/messenger.cpp).
-- The threads that log and the flush thread share the logger; each locked region, and each access
-- to an atomic member, is one step.
pub mod Delivery
pub mod Shutdown
pub mod Streams
use vtb.Prelude.{ℕ, Bool, true, false, ◌||◌, List, [], ◌∷◌, ◌++◌, if◌then◌else◌, leb, Bytes, text}
use vtb.Cmdline.{empty}

pub data LogLevel : Type 0 where
  error_level : LogLevel
  default_level : LogLevel
  full_level : LogLevel

-- The order of the enumeration.
abbrev pub rank : LogLevel → ℕ
rank error_level = 0
rank default_level = 1
rank full_level = 2

-- Where the flush thread stands in `flush_loop`: not started, at the loop's test, in the wait,
-- with the text that it took, before the final drain, with the text of the final drain, at the end.
pub data Flusher : Type 0 where
  absent : Flusher
  testing : Flusher
  waiting : Flusher
  holding : Bytes → Flusher
  draining : Flusher
  drained : Bytes → Flusher
  finished : Flusher

-- `console` is what went to the standard output, `file` what went to the log file.
pub record Logger : Type 0 where
  pub level : LogLevel
  pub running : Bool
  pub initialized : Bool
  pub file_open : Bool
  pub buffer : Bytes
  pub console : Bytes
  pub file : Bytes
  pub flusher : Flusher

unfoldable pub fresh : Logger
fresh = record {
  level = default_level;
  running = false;
  initialized = false;
  file_open = false;
  buffer = [];
  console = [];
  file = [];
  flusher = absent;
}

-- `opens` says whether the file system lets the file be opened.
unfoldable pub init : Bytes → Bool → LogLevel → Logger → Logger
init filename opens level logger = if logger.initialized then logger else record logger {
  initialized = true;
  level = level;
  file_open = if empty filename then logger.file_open else opens;
  running = true;
  flusher = testing;
}

abbrev is_error : LogLevel → Bool
is_error error_level = true
is_error default_level = false
is_error full_level = false

abbrev pub passes : LogLevel → LogLevel → Bool
passes msg_level level = leb (rank msg_level) (rank level) || is_error msg_level

abbrev pub line : Bytes → Bytes
line message = message ++ (10 ∷ [])

unfoldable pub log : LogLevel → Bytes → Logger → Logger
log msg_level message logger =
    if passes msg_level logger.level
    then record logger { buffer = logger.buffer ++ line message }
    else logger

-- The writes of one round, to the standard output and to the file if it is open.
pub write : Bytes → Logger → Logger
write to_write logger = if empty to_write then logger else record logger {
  console = logger.console ++ to_write;
  file = if logger.file_open then logger.file ++ to_write else logger.file;
}

pub move : Flusher → Logger → Logger
unfolding write
move absent logger = logger
move testing logger = record logger { flusher = if logger.running then waiting else draining }
move waiting logger = record logger { flusher = holding logger.buffer; buffer = [] }
move (holding to_write) logger = record (write to_write logger) { flusher = testing }
move draining logger = record logger { flusher = drained logger.buffer }
move (drained final_content) logger = record (write final_content logger) { flusher = finished }
move finished logger = logger

-- One step of `flush_loop`.
unfoldable pub flush : Logger → Logger
unfolding move
flush logger = move logger.flusher logger

-- The destructor, up to the join.
unfoldable pub stop : Logger → Logger
stop logger = record logger { running = false }

-- A line of the log on its way: `oss` is what was put into it so far.
pub record LogStream : Type 0 where
  pub level : LogLevel
  pub prefix : Bytes
  pub oss : Bytes

abbrev pub log_stream : LogLevel → Bytes → LogStream
log_stream level prefix = record { level = level; prefix = prefix; oss = [] }

-- `operator<<`, of a value that is written as the given text.
abbrev pub put : LogStream → Bytes → LogStream
put stream value = record stream { oss = stream.oss ++ value }

-- The destructor.
unfoldable pub end_stream : LogStream → Logger → Logger
unfolding log
end_stream stream logger =
    if leb (rank stream.level) (rank logger.level)
    then log stream.level (stream.prefix ++ stream.oss) logger
    else logger

abbrev pub info_stream : LogStream
info_stream = log_stream default_level (text "[INFO] ")

abbrev pub error_stream : LogStream
error_stream = log_stream default_level (text "[ERROR] ")

abbrev pub details_stream : LogStream
details_stream = log_stream full_level (text "[DETAILS] ")

-- A message in one piece.
unfoldable pub info : Bytes → Logger → Logger
unfolding end_stream
info message = end_stream (put info_stream message)

unfoldable pub error : Bytes → Logger → Logger
unfolding end_stream
error message = end_stream (put error_stream message)
