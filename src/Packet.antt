-- ===== src/Packet.antt =====
-- MP2/packet.h: the datagram that both state machines exchange.
use comnet.Base.{ℕ, List, Bool}

-- `data` is the field `payload`, a list of bytes; in memory it is exactly 100 bytes long.
pub record Packet : Type 0 where
  pub seq_num : ℕ
  pub ack_num : ℕ
  pub data_len : ℕ
  pub ack : Bool
  pub fin : Bool
  pub payload : List ℕ
