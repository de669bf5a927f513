-- ===== src/Config.antt =====
-- The constants of belcoin_node/config.py that the modelled code reads.
-- The model's unit of time is 1 / TIME_MULTIPLIER seconds, so `current_time * TIME_MULTIPLIER` of
-- the source is the `current_time` of the model, and `int` of it is the same number.
use belcoin.Prelude.{ℕ}

abbrev pub block_timeout : ℕ
block_timeout = 1_000_000_000

abbrev pub block_size : ℕ
block_size = 5000

abbrev pub backoff_amount : ℕ
backoff_amount = 300

abbrev pub time_multiplier : ℕ
time_multiplier = 1_000_000_000

abbrev pub timeout_const : ℕ
timeout_const = 1_000_000_000

abbrev pub timelock_const : ℕ
timelock_const = 1_000_000_000
