-- ===== src/Ticker/Start.antt =====
-- ticker: how the programs start their three tasks, and the line of the POSIX ticker.
use rtems_examples.Common.{ℕ, zero, suc, ◌+◌, List, [], ◌∷◌}
use rtems_examples.Complex1.Periodic.{build_name}

-- `rtems_task_create` with `rtems_task_start`: the name of the task and its argument.
pub record Created : Type 0 where
  pub name : ℕ
  pub argument : ℕ

-- The loop of `Init` in low_ticker, low_ticker1 and low_ticker2, with the rounds left.
pub low_ticker_loop : ℕ → ℕ → List Created
unfolding build_name
low_ticker_loop zero i = []
low_ticker_loop (suc left) i =
    record { name = build_name b'T' b'A' (0x30 + 1) b' '; argument = i }
    ∷ low_ticker_loop left (i + 1)

unfoldable pub low_ticker_init : List Created
unfolding low_ticker_loop
low_ticker_init = low_ticker_loop 3 1

-- `Init` of ticker, ticker_trace and ticker_stackchk.
unfoldable pub ticker_init : List Created
unfolding build_name
ticker_init =
    record { name = build_name b'T' b'A' b'1' b' '; argument = 1 }
    ∷ record { name = build_name b'T' b'A' b'2' b' '; argument = 2 }
    ∷ record { name = build_name b'T' b'A' b'3' b' '; argument = 3 }
    ∷ []

-- What `gmtime_r` gives.
pub record Tm : Type 0 where
  pub tm_mon : ℕ
  pub tm_mday : ℕ
  pub tm_year : ℕ
  pub tm_hour : ℕ
  pub tm_min : ℕ
  pub tm_sec : ℕ

-- The numbers of the line of ticker_posix.
unfoldable pub print_time : Tm → List ℕ
print_time split =
    split.tm_mon
    ∷ split.tm_mday
    ∷ (split.tm_year + 1900)
    ∷ split.tm_hour
    ∷ split.tm_min
    ∷ split.tm_sec
    ∷ []
