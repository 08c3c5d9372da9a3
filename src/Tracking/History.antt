-- ===== src/Tracking/History.antt =====
-- The events of a product that pass a test, by the numbers that are listed for it.
use chain_logistics.Base.{ℕ, Bool, Option, none, some, List, str_eq, if◌then◌else◌, filter_map}
use chain_logistics.Host.Call.{Symbol}
use chain_logistics.Tracking.State.{TrackingEvent, State, get_event}

abbrev pub found : State → (TrackingEvent → Bool) → ℕ → Option TrackingEvent
found s test eid = elim (get_event eid s) [ none ↦ none | some e ↦ if test e then some e else none ]

-- The stored events of these numbers that pass the test, in order.
abbrev pub history : State → (TrackingEvent → Bool) → List ℕ → List TrackingEvent
history s test ids = filter_map (found s test) ids

abbrev pub scanned : State → (TrackingEvent → Bool) → ℕ → Option ℕ
scanned s test eid = elim (get_event eid s) [
  | none ↦ none
  | some e ↦ if test e then some eid else none
]

abbrev pub has_kind : Symbol → TrackingEvent → Bool
has_kind kind e = str_eq e.event_type kind

-- The numbers of the stored events of a kind, in order.
abbrev pub of_kind : State → Symbol → List ℕ → List ℕ
of_kind s kind ids = filter_map (scanned s (has_kind kind)) ids
