-- ===== src/LogVolume/Log.antt =====
-- The log statements that the scanner of log-volume-optimizer/scripts writes and the other scripts
-- read: a dict whose keys may be absent. Frequencies, sizes and lines are not negative.
use trino_gateway.Prelude.{ℕ, Bool, Option, none}
use trino_gateway.Prelude.Text.{Text}

pub record LogEntry : Type 0 where
  pub file : Option Text
  pub line : Option ℕ
  pub level : Option Text
  pub function : Option Text
  pub message : Option Text
  pub message_template : Option Text
  pub in_loop : Option Bool
  pub in_error_handler : Option Bool
  pub estimated_size_bytes : Option ℕ

-- `{}`
abbrev pub empty_entry : LogEntry
empty_entry = record {
  file = none;
  line = none;
  level = none;
  function = none;
  message = none;
  message_template = none;
  in_loop = none;
  in_error_handler = none;
  estimated_size_bytes = none;
}
