-- ===== src/Parallel/Schedule.antt =====
-- Interleavings: a schedule names the thread that moves next; a blocked or ended thread waits.
use pdip.Prelude.{ℕ, suc, Bool, Option, none, some, List, [], ◌∷◌, get_elem?, replicate}
use pdip.Parallel.Domain.{Site, Config}
use pdip.Parallel.State.{counting, waiting, Run}
use pdip.Parallel.Reader.{read_step}
use pdip.Parallel.Writer.{write_step}

pub data Thread : Type 0 where
  source : Thread
  target : ℕ → Thread

module _ {Row : Type 0} (site : Site Row) (signal : ℕ → Bool) (config : Config) where
  -- The state after `start_source_data_subprocess` and `start_execute_data_subprocess` have
  -- started one reader and `process_count` writers on fresh queues.
  unfoldable pub initial : List Row → Run Row
  initial table = record {
    reader = counting;
    writers = replicate config.process_count (waiting 0);
    data_queue = [];
    data_result_queue = [];
    table = table;
    channel = [];
    ended = [];
  }

  unfoldable pub step : Thread → Run Row → Option (Run Row)
  step source r = read_step site config r.reader r
  step (target i) r = write_step site signal i (get_elem? r.writers i) r

  unfoldable pub or_stay : Option (Run Row) → Run Row → Run Row
  or_stay none r = r
  or_stay (some r') r = r'

  unfoldable pub run : List Thread → Run Row → Run Row
  unfolding or_stay
  run [] r = r
  run (t ∷ ts) r = run ts (or_stay (step t r) r)

  -- The steps of a schedule that were not blocked.
  unfoldable pub moves : List Thread → Run Row → ℕ
  moves [] r = 0
  moves (t ∷ ts) r = elim (step t r) [ none ↦ moves ts r | some r' ↦ suc (moves ts r') ]

-- The configuration of an operation with `n` processes and the limit `l`.
abbrev pub limited : ℕ → ℕ → Config
limited n l = record { process_count = n; limit = some l }

-- The state that a schedule reaches from the start.
abbrev pub reached :
    {Row : Type 0} → Site Row → (ℕ → Bool) → ℕ → ℕ → List Row → List Thread → Run Row
reached site signal n l before ts =
    run site signal (limited n l) ts (initial site signal (limited n l) before)
