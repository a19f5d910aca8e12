-- ===== src/Msg/Connection/Setters.antt =====
-- The setters of a connection, and what it hands out of its addresses but for their texts.
use hpnl.Base.{ℕ}
use hpnl.Msg.Connection.{MsgConnection}

unfoldable pub set_recv_callback : (callback : ℕ) → MsgConnection → MsgConnection
set_recv_callback callback c = record c { recv_callback = callback }

unfoldable pub set_send_callback : (callback : ℕ) → MsgConnection → MsgConnection
set_send_callback callback c = record c { send_callback = callback }

unfoldable pub set_read_callback : (callback : ℕ) → MsgConnection → MsgConnection
set_read_callback callback c = record c { read_callback = callback }

unfoldable pub set_write_callback : (callback : ℕ) → MsgConnection → MsgConnection
set_write_callback callback c = record c { write_callback = callback }

unfoldable pub set_shutdown_callback : (callback : ℕ) → MsgConnection → MsgConnection
set_shutdown_callback callback c = record c { shutdown_callback = callback }

-- The port of the destination, and that of the source.
unfoldable pub get_addr : MsgConnection → ℕ × ℕ
get_addr c = (c.dest_port, c.src_port)
