-- ===== src/Util/Log.antt =====
-- core/src/util/log.hpp and log.cpp. The time of a line is a parameter: its text to the second, and the
-- milliseconds.
use collapsar.Base.{ℕ, ◌+◌, ◌/◌, ◌%◌, Bool, leb, Bytes, [], ◌∷◌, ◌++◌, text, if◌then◌else◌}

pub data LogLevel : Type 0 where
  trace debug info warn error : LogLevel

abbrev pub rank : LogLevel → ℕ
rank trace = 0
rank debug = 1
rank info = 2
rank warn = 3
rank error = 4

unfoldable pub tag : LogLevel → Bytes
tag trace = text "TRACE"
tag debug = text "DEBUG"
tag info = text "INFO "
tag warn = text "WARN "
tag error = text "ERROR"

pub record Logger : Type 0 where
  pub level : LogLevel
  pub written : Bytes

abbrev pub new_logger : Logger
new_logger = record { level = info; written = [] }

unfoldable pub set_level : LogLevel → Logger → Logger
set_level level log = record log { level = level }

abbrev pub is_active : Logger → LogLevel → Bool
is_active log level = leb (rank log.level) (rank level)

-- Three digits, for the milliseconds.
abbrev pub three_digits : ℕ → Bytes
three_digits n = (b'0' + n / 100 % 10) ∷ (b'0' + n / 10 % 10) ∷ (b'0' + n % 10) ∷ []

-- A line from its guard's construction to its destruction.
unfoldable pub write_line : Bytes → ℕ → LogLevel → Bytes → Logger → Logger
unfolding tag
write_line time millis level message log =
    if is_active log level
    then record log {
      written =
          log.written
          ++ (b'['
              ∷ (time
                  ++ (b'.'
                      ∷ (three_digits (millis % 1000)
                          ++ (text "] " ++ (tag level ++ (b' ' ∷ (message ++ (10 ∷ [])))))))));
    }
    else log
