-- ===== src/Logger.antt =====
-- `logger` of util/log.h and util/log.cpp: the sinks of Boost.Log's core, which takes a sink that is
-- registered no second time. `none` is an overflow of an int.
use ey_ps.Prelude.{
  ℕ, ◌*◌, ◌^◌, ◌==◌, Bool, ◌&&◌, List, [], ◌∷◌, ◌++◌, Option, none, some, ltb, if◌then◌else◌,
}

pub data Sink : Type 0 where
  console_sink : Sink
  -- The file's name, the size at which it is rotated, and the largest size of all files.
  file_sink : List ℕ → ℕ → ℕ → Sink

pub record Logger : Type 0 where
  pub sinks : List Sink
  -- The filter passes the severities from this one on.
  pub level : ℕ

-- logger()
abbrev pub no_logger : Logger
no_logger = record { sinks = []; level = 0 }

abbrev pub fits_int : ℕ → Bool
fits_int n = ltb n (2 ^ 31)

abbrev pub add_sink : Sink → Logger → Logger
add_sink sink logger = record logger { sinks = logger.sinks ++ (sink ∷ []) }

-- set_filter
abbrev pub set_filter : ℕ → Logger → Logger
set_filter level logger = record logger { level = level }

-- init; the type is console (0), file (1), or any other, which is taken for console.
unfoldable pub init : List ℕ → ℕ → ℕ → ℕ → ℕ → Logger → Option Logger
init filename type level max_file_size max_backup_index logger =
    let rotation_size = max_file_size * 1024 * 1024 in
    let max_size = max_file_size * max_backup_index * 1024 * 1024 in
    if type == 1
    then (if fits_int rotation_size && fits_int max_size
        then some (set_filter level (add_sink (file_sink filename rotation_size max_size) logger))
        else none)
    else some (set_filter level (add_sink console_sink logger))
