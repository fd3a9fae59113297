-- ===== src/Logger/Streams.antt =====
-- The log streams (inc/messenger.h, src/messenger.cpp).
use mathlib.Core.List.{append_assoc, append-nil}
use vtb.Prelude.{
  ℕ, ◌≡◌, sym, ◌∙◌, ap, List, [], ◌∷◌, ◌++◌, if◌then◌else◌, leb, Bytes, text, Bool-cases, inl, inr,
}
use vtb.Logger.{
  Logger, LogStream, LogLevel, rank, line, log, put, end_stream, info_stream, error_stream,
  details_stream, default_level, full_level, log_stream,
}

-- The pieces of a message, put one after the other.
abbrev pub put_all : LogStream → List Bytes → LogStream
put_all stream [] = stream
put_all stream (value ∷ values) = put_all (put stream value) values

abbrev pub joined : List Bytes → Bytes
joined [] = []
joined (value ∷ values) = value ++ joined values

put_all-joined :
    (values : List Bytes) (level : LogLevel) (prefix oss : Bytes)
    → put_all (record { level = level; prefix = prefix; oss = oss }) values
      ≡ record { level = level; prefix = prefix; oss = oss ++ joined values }
put_all-joined [] level prefix oss =
    ap (λ z. record { level = level; prefix = prefix; oss = z }) (sym (append-nil oss))
put_all-joined (value ∷ values) level prefix oss =
    put_all-joined values level prefix (oss ++ value)
    ∙ ap (λ z. record { level = level; prefix = prefix; oss = z })
        (append_assoc oss value (joined values))

-- What the end of a stream of the given level does.
abbrev pub Logs : ℕ → Bytes → Logger → Logger → Type 0
Logs rank_of_stream message s after = after ≡ (
    if leb rank_of_stream (rank s.level) then record s { buffer = s.buffer ++ line message } else s)

at_level :
    (level : LogLevel) (prefix : Bytes) (values : List Bytes) (s : Logger)
    → Logs
        (rank level)
        (prefix ++ joined values)
        s
        (end_stream (put_all (log_stream level prefix) values) s)
unfolding end_stream log
at_level level prefix values s =
    rw (put_all-joined values level prefix [])
      (elim (Bool-cases (leb (rank level) (rank s.level))) [ inl h ↦ simp h | inr h ↦ simp h ])

-- `info` and `error` reach the buffer unless the level is the lowest, `details` only at the
-- highest, each as one line of its prefix and the pieces that were put into it, in order; at the
-- lowest level nothing of the three does, errors neither.
pub streams_by_level :
    (values : List Bytes) (s : Logger)
    → Logs 1 (text "[INFO] " ++ joined values) s (end_stream (put_all info_stream values) s)
      × Logs 1 (text "[ERROR] " ++ joined values) s (end_stream (put_all error_stream values) s)
      × Logs 2 (text "[DETAILS] " ++ joined values) s (end_stream (put_all details_stream values) s)
streams_by_level values s = (
  at_level default_level (text "[INFO] ") values s,
  at_level default_level (text "[ERROR] ") values s,
  at_level full_level (text "[DETAILS] ") values s,
)
