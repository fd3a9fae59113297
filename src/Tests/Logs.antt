-- ===== src/Tests/Logs.antt =====
-- Instances for Logger.antt.
use vtb.Prelude.{Bytes, true, false, List, [], ◌∷◌, ◌++◌, text, ◌≡◌, refl}
use vtb.Logger.{
  Logger, error_level, default_level, full_level, waiting, finished, fresh, init, log, stop, flush,
  info_stream, error_stream, details_stream, end_stream,
}
use vtb.Logger.Delivery.{
  Event, inits, logs, flushes, stops, run, step, accepted, Inv, run-fresh-Inv,
}
use vtb.Logger.Shutdown.{BeforeDrain, flush_times, flush_times-accepted}
use vtb.Logger.Streams.{Logs, joined, put_all, streams_by_level}

abbrev events : List Event
events =
    logs error_level (text "early")
    ∷ inits (text "vtb.log") true default_level
    ∷ logs default_level (text "one")
    ∷ flushes
    ∷ flushes
    ∷ logs full_level (text "dropped")
    ∷ logs default_level (text "two")
    ∷ stops
    ∷ []

run-fresh-Inv_example : Inv (accepted events fresh) (run events fresh)
run-fresh-Inv_example = run-fresh-Inv events

before : BeforeDrain (run events fresh).flusher
unfolding run step fresh init log stop flush
before = tt

stopped : (run events fresh).running ≡ false
unfolding run step fresh init log stop flush
stopped = refl

flush_times-accepted_example :
    ((flush_times 5 (run events fresh)).flusher ≡ finished)
    × ((flush_times 5 (run events fresh)).console ≡ accepted events fresh)
flush_times-accepted_example = flush_times-accepted events before stopped

-- What that run wrote.
written :
    (flush_times 5 (run events fresh)).console
    ≡ text "early" ++ (10 ∷ (text "one" ++ (10 ∷ (text "two" ++ (10 ∷ [])))))
unfolding run step fresh init log stop flush flush_times
written = refl

abbrev at_error : Logger
at_error = record {
  level = error_level;
  running = true;
  initialized = true;
  file_open = false;
  buffer = [];
  console = [];
  file = [];
  flusher = waiting;
}

abbrev pieces : List Bytes
pieces = text "Fd: " ∷ text "7" ∷ []

streams_by_level_example :
    Logs 1
      (text "[INFO] " ++ joined pieces)
      at_error
      (end_stream (put_all info_stream pieces) at_error)
    × Logs 1
        (text "[ERROR] " ++ joined pieces)
        at_error
        (end_stream (put_all error_stream pieces) at_error)
    × Logs 2
        (text "[DETAILS] " ++ joined pieces)
        at_error
        (end_stream (put_all details_stream pieces) at_error)
streams_by_level_example = streams_by_level pieces at_error
