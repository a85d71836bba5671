-- ===== src/Server/Busy.antt =====
-- `_BusyDrain`: the connections that were told that the service is busy, until the client's bytes are read away.
-- A connection is known by a number, each a new one; what the system answers on a turn of the thread is given.
pub mod Laws
use php_python_ai_bridge.Base.{
  ℕ, ◌+◌, ◌-◌, min, Bool, true, false, not, ◌||◌, List, [], ◌∷◌, ◌++◌, Option, none, some, leb, ltb,
  ◌==◌, nat_eq, if◌then◌else◌, length, filter,
}

abbrev pub busy_drain_cap : ℕ
busy_drain_cap = 64

-- `BUSY_DRAIN_SECONDS`, in milliseconds, and `LINGER_BYTES`.
abbrev busy_drain_time : ℕ
busy_drain_time = 1000

abbrev linger_bytes : ℕ
linger_bytes = 327680

pub record Held : Type 0 where
  pub connection : ℕ
  pub deadline : ℕ
  pub left : ℕ

-- `closed` are the connections that `_close` has closed.
pub record BusyDrain : Type 0 where
  pub queue : List Held
  pub slots : ℕ
  pub stopped : Bool
  pub pending : List Held
  pub closed : List ℕ

abbrev pub new_drain : BusyDrain
new_drain = record {
  queue = [];
  slots = busy_drain_cap;
  stopped = false;
  pending = [];
  closed = [];
}

-- `add`: whether the connection was taken.
unfoldable pub add : ℕ → ℕ → BusyDrain → Bool × BusyDrain
add now connection d = if d.stopped || d.slots == 0 then (false, d) else (
  true,
  record d {
    queue =
        d.queue
        ++ (record {
          connection = connection;
          deadline = now + busy_drain_time;
          left = linger_bytes;
        }
            ∷ []);
    slots = d.slots - 1;
  },
)

-- `_close` of connections that are no longer pending.
abbrev pub connections : List Held → List ℕ
connections [] = []
connections (h ∷ hs) = h.connection ∷ connections hs

pub close_all : List Held → BusyDrain → BusyDrain
close_all hs d = record d { slots = d.slots + length hs; closed = d.closed ++ connections hs }

-- The pending connections that a test picks are closed, the others stay.
pub close_where : (Held → Bool) → BusyDrain → BusyDrain
close_where p d =
    let chosen = filter p d.pending in
    close_all chosen (record d { pending = filter (λ h. not (p h)) d.pending })

-- What `recv` answers on a connection that is ready: it would block, it fails, or some bytes come.
pub data Got : Type 0 where
  blocked broken : Got
  bytes : ℕ → Got

-- What a ready connection has left to read, `none` where it is to be closed.
unfoldable pub left_after : ℕ → Got → Held → Option ℕ
left_after now blocked h = if ltb now h.deadline then some h.left else none
left_after now broken h = none
left_after now (bytes n) h =
    let part = min n (min h.left 65536) in
    if not (ltb now h.deadline) || part == 0 || h.left - part == 0
    then none
    else some (h.left - part)

pub set_left : ℕ → ℕ → List Held → List Held
set_left connection left [] = []
set_left connection left (h ∷ hs) =
    let rest = set_left connection left hs in
    if h.connection == connection then record h { left = left } ∷ hs else h ∷ rest

pub find_held : ℕ → List Held → Option Held
find_held connection [] = none
find_held connection (h ∷ hs) =
    let rest = find_held connection hs in if h.connection == connection then some h else rest

pub drop_held : ℕ → List Held → List Held
drop_held connection [] = []
drop_held connection (h ∷ hs) =
    let rest = drop_held connection hs in if h.connection == connection then hs else h ∷ rest

pub close_held : Held → BusyDrain → BusyDrain
close_held h d = close_all (h ∷ []) (record d { pending = drop_held h.connection d.pending })

pub keep_or_close : Option ℕ → Held → BusyDrain → BusyDrain
keep_or_close none h d = close_held h d
keep_or_close (some left) h d = record d { pending = set_left h.connection left d.pending }

-- A connection that the selector found ready.
pub record Event : Type 0 where
  pub connection : ℕ
  pub at : ℕ
  pub got : Got

pub on_event : Event → BusyDrain → BusyDrain
on_event e d = elim (find_held e.connection d.pending) [
  | none ↦ d
  | some h ↦ keep_or_close (left_after e.at e.got h) h d
]

pub on_events : List Event → BusyDrain → BusyDrain
on_events [] d = d
on_events (e ∷ es) d = on_events es (on_event e d)

-- The queue is taken over.
pub take_queue : BusyDrain → BusyDrain
take_queue d = record d { pending = d.pending ++ d.queue; queue = [] }

-- The connections that the selector does not take.
pub unregister : List ℕ → BusyDrain → BusyDrain
unregister [] d = d
unregister (c ∷ cs) d =
    unregister cs (elim (find_held c d.pending) [ none ↦ d | some h ↦ close_held h d ])

-- One turn of `_run`: which connections the selector refuses, which it finds ready, or `none` where it fails, and
-- the time at its end.
pub record Turn : Type 0 where
  pub refused : List ℕ
  pub found : Option (List Event)
  pub ended : ℕ

pub select : Option (List Event) → BusyDrain → BusyDrain
select none d = close_where (λ h. true) d
select (some es) d = on_events es d

pub turn : Turn → BusyDrain → BusyDrain
turn t d =
    close_where (λ h. leb h.deadline t.ended) (select t.found (unregister t.refused (take_queue d)))

-- The end of `_run`, once it is stopped.
unfoldable pub finish : BusyDrain → BusyDrain
finish d = close_where (λ h. true) (take_queue d)

-- `close` stops it; the thread then ends.
unfoldable pub stop : BusyDrain → BusyDrain
stop d = record d { stopped = true }

pub run_once : Turn → BusyDrain → BusyDrain
run_once t d = if d.stopped then finish d else turn t d
