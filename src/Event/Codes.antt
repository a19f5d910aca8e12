-- ===== src/Event/Codes.antt =====
-- `EventType` (src/demultiplexer/EventType.h), by which the external demultiplexers report.
use hpnl.Base.{ℤ, pos}

pub data EventType : Type 0 where
  accept_event connected_event read_event write_event recv_event send_event : EventType
  close_event error_event connect accept shutdown : EventType

unfoldable pub value : EventType → ℤ
value accept_event = pos 1
value connected_event = pos 2
value read_event = pos 4
value write_event = pos 8
value recv_event = pos 16
value send_event = pos 32
value close_event = pos 64
value error_event = pos 128
value connect = pos 256
value accept = pos 512
value shutdown = pos 1024
