-- ===== src/Totempg/Packets.antt =====
-- The packets of exec/totempg.c.
use corosync.Prelude.{ℕ, List, length, ◌+◌, ◌*◌}

-- struct totempg_mcast with the lengths and the bytes behind it; msg_count is the number of lengths, and
-- the version and the type are always 0. Bytes are numbers.
pub record Packet : Type 0 where
  pub fragmented : ℕ
  pub continuation : ℕ
  pub msg_lens : List ℕ
  pub payload : List ℕ

-- sizeof (struct totempg_mcast)
abbrev pub mcast_size : ℕ
mcast_size = 8

-- The length of a packet in bytes.
abbrev pub msg_len : Packet → ℕ
msg_len p = mcast_size + 2 * length p.msg_lens + length p.payload
