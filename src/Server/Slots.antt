-- ===== src/Server/Slots.antt =====
-- `BridgeServer.process_request`, `process_request_thread` and `shutdown`: the connections of the service.
pub mod Laws
use php_python_ai_bridge.Base.{
  ℕ, ◌+◌, ◌-◌, Bool, true, false, not, ◌&&◌, ◌||◌, List, [], ◌∷◌, ◌++◌, Option, none, some, leb,
  ltb, ◌==◌, nat_eq, if◌then◌else◌, length,
}
use php_python_ai_bridge.Server.Busy.{BusyDrain, new_drain, add, Turn, run_once, stop}

abbrev pub slot_count : ℕ
slot_count = 32

-- `served` are the connections that a handler's thread has, `shut` those that were closed without a handler.
pub record Connections : Type 0 where
  pub slots : ℕ
  pub served : List ℕ
  pub shut : List ℕ
  pub drain : BusyDrain

abbrev pub no_connections : Connections
no_connections = record { slots = slot_count; served = []; shut = []; drain = new_drain }

-- What the system does on a new connection: it takes the whole busy reply, shuts the connection's sending side, and
-- starts a thread.
pub record Arrived : Type 0 where
  pub now : ℕ
  pub sent : Bool
  pub half_closed : Bool
  pub started : Bool

pub shut_unless : ℕ → Bool × BusyDrain → Connections → Connections
shut_unless c (true, d) s = record s { drain = d }
shut_unless c (false, d) s = record s { drain = d; shut = s.shut ++ (c ∷ []) }

pub refuse_connection : Arrived → ℕ → Connections → Connections
refuse_connection a c s =
    shut_unless c (if a.sent && a.half_closed then add a.now c s.drain else (false, s.drain)) s

-- `process_request`. Where no thread starts, the library closes the connection.
unfoldable pub process_request : Arrived → ℕ → Connections → Connections
process_request a c s =
    if s.slots == 0
    then refuse_connection a c s
    else if a.started
    then record s { slots = s.slots - 1; served = s.served ++ (c ∷ []) }
    else record s { shut = s.shut ++ (c ∷ []) }

-- The end of `process_request_thread`, which has closed the connection.
pub drop_served : ℕ → List ℕ → List ℕ
drop_served c [] = []
drop_served c (x ∷ xs) = let rest = drop_served c xs in if x == c then xs else x ∷ rest

pub end_request : ℕ → Connections → Connections
end_request c s = record s {
  slots = s.slots + 1;
  served = drop_served c s.served;
  shut = s.shut ++ (c ∷ []);
}

pub drain_turn : Turn → Connections → Connections
drain_turn t s = record s { drain = run_once t s.drain }

-- What `shutdown` does to the connections.
pub shutdown : Connections → Connections
shutdown s = record s { drain = stop s.drain }
