-- ===== src/Server/Stop.antt =====
-- The stop of the service: `stop`, `_drain_then_stop`, `_write_drain` and `server_close`, and the end of `main`.
-- Each function is what one thread does without waiting; times are in milliseconds.
pub mod Order
pub mod Laws
use php_python_ai_bridge.Base.{
  ℕ, ◌+◌, ◌-◌, ◌*◌, Bool, true, false, not, ◌&&◌, ◌||◌, List, [], ◌∷◌, ◌++◌, Option, none, some,
  ltb, if◌then◌else◌, is_some,
}

-- How far the drain thread is, and how far `server_close` and the end of `main` are.
pub data DrainThread : Type 0 where
  not_started draining waiting publishing writing stopping : DrainThread

pub data Closer : Type 0 where
  serving closing closed stop_written : Closer

pub record DrainLine : Type 0 where
  duration_ms : ℕ
  pub running : ℕ
  pub interrupted : Bool

pub data LogLine : Type 0 where
  drain_line : DrainLine → LogLine
  stop_line : (cancelled : ℕ) → LogLine

pub record Service : Type 0 where
  pub drain_seconds : ℕ
  pub signalled_at : Option ℕ
  pub interrupted : Bool
  pub drainer : DrainThread
  pub drained : Bool
  pub line : Option DrainLine
  pub drain_closed : Bool
  pub shut : Bool
  pub closer : Closer
  pub lines : List LogLine

abbrev pub serving_service : ℕ → Service
serving_service drain_seconds = record {
  drain_seconds = drain_seconds;
  signalled_at = none;
  interrupted = false;
  drainer = not_started;
  drained = false;
  line = none;
  drain_closed = false;
  shut = false;
  closer = serving;
  lines = [];
}

-- `stop`, a signal's handler.
pub signal : ℕ → Service → Service
signal now s = elim s.signalled_at [
  | none ↦ record s { signalled_at = some now; drainer = draining }
  | some at ↦ record s { interrupted = true }
]

-- The thread that a second signal starts.
pub shutdown_now : Service → Service
shutdown_now s = if s.interrupted then record s { shut = true } else s

-- `_write_drain(last)`.
pub written_by : Bool → Option DrainLine → List LogLine
written_by true line = []
written_by false none = []
written_by false (some fields) = drain_line fields ∷ []

pub write_drain : Bool → Service → Service
write_drain last s = record s {
  line = none;
  lines = s.lines ++ written_by s.drain_closed s.line;
  drain_closed = s.drain_closed || last;
}

-- Whether the wait of `_drain_then_stop` goes on: no second signal, jobs that run, and time left.
unfoldable pub goes_on : ℕ → Bool → Service → Bool
goes_on now busy s =
    not s.interrupted
    && busy
    && elim s.signalled_at [ none ↦ false | some at ↦ ltb now (at + 1000 * s.drain_seconds) ]

abbrev pub since : ℕ → Option ℕ → ℕ
since now none = 0
since now (some at) = now - at

-- The next step of `_drain_then_stop`: whether jobs still run, how many, and whether the log is on.
pub drain_step : ℕ → Bool → ℕ → Bool → Service → Service
drain_step now busy running enabled s = elim s.drainer [
  | not_started ↦ s
  | draining ↦ record s { drainer = waiting }
  | waiting ↦ if goes_on now busy s then s else record s { drainer = publishing }
  | publishing ↦ record s {
    drainer = writing;
    drained = true;
    line =
        if enabled
        then some (record {
          duration_ms = since now s.signalled_at;
          running = running;
          interrupted = s.interrupted;
        })
        else s.line;
  }
  | writing ↦ record (write_drain false s) { drainer = stopping }
  | stopping ↦ record s { shut = true }
]

-- The next step after `serve_forever`: `server_close`, whose wait for the drain thread may run out, and the stop
-- line with the jobs that `close` cancelled. `_drainer` is set there, since a shutdown comes of a signal alone.
pub close_step : Bool → ℕ → Service → Service
close_step waited_long cancelled s = elim s.closer [
  | serving ↦ if s.shut then record s { closer = closing } else s
  | closing ↦
      if s.drained || waited_long then record (write_drain true s) { closer = closed } else s
  | closed ↦ record s { closer = stop_written; lines = s.lines ++ (stop_line cancelled ∷ []) }
  | stop_written ↦ s
]
