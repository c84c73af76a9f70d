-- ===== src/SocketCan/Receipt.antt =====
-- What a client of the receivers of socketcan.py sees of one call of `receive()`.
use open_sprite_runtime.Prelude.Result.{Exception}
use open_sprite_runtime.SocketCan.{ReceivedCanFrame}

-- What one call of `receive()` does.
pub data Receipt : Type 0 where
  -- BlockingIOError
  blocked : Receipt
  -- SocketCanTimestampError
  untimed : Receipt
  raised : Exception → Receipt
  received : ReceivedCanFrame → Receipt
