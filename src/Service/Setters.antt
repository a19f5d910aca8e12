-- ===== src/Service/Setters.antt =====
-- The setters of a service.
use hpnl.Base.{ℕ, Bool}
use hpnl.Service.{Service}

unfoldable pub set_chunk_mgr : (buf_mgr : Bool) → Service → Service
set_chunk_mgr buf_mgr v = record v { buf_mgr = buf_mgr }

unfoldable pub set_recv_callback : (callback : ℕ) → Service → Service
set_recv_callback callback v = record v { recv_callback = callback }

unfoldable pub set_send_callback : (callback : ℕ) → Service → Service
set_send_callback callback v = record v { send_callback = callback }

unfoldable pub set_read_callback : (callback : ℕ) → Service → Service
set_read_callback callback v = record v { read_callback = callback }

unfoldable pub set_write_callback : (callback : ℕ) → Service → Service
set_write_callback callback v = record v { write_callback = callback }

unfoldable pub set_connected_callback : (callback : ℕ) → Service → Service
set_connected_callback callback v = record v { connected_callback = callback }

unfoldable pub set_shutdown_callback : (callback : ℕ) → Service → Service
set_shutdown_callback callback v = record v { shutdown_callback = callback }
