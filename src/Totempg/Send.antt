-- ===== src/Totempg/Send.antt =====
-- mcast_msg and the token callback of exec/totempg.c. The lock of the threaded mode is left out.
use corosync.Prelude.{
  ℕ, zero, suc, ◌+◌, ◌-◌, ◌*◌, ◌/◌, ◌%◌, ◌^◌, Bool, true, false, not, ◌||◌, Option, none, some,
  List, [], ◌∷◌, ◌++◌, ltb, leb, ◌==◌, if◌then◌else◌, length, take, drop, sub64,
}
use corosync.Totempg.Packets.{Packet, mcast_size}

-- The staging buffer, the first `fragment_size` bytes of fragmentation_data, with the lengths of the
-- messages in it. `room` is what totemsrp_avail answers, and `sent` what totemsrp_mcast has taken.
pub record Staging : Type 0 where
  pub fragmentation_data : List ℕ
  pub packed_msg_lens : List ℕ
  pub fragment_continuation : ℕ
  pub next_fragment : ℕ
  pub room : ℕ
  pub sent : List Packet

-- The variables of the loop of mcast_msg: the iovecs from the current one on, how far that one is copied,
-- the length so far of the message in the buffer, and the room of a packet.
pub record Loop : Type 0 where
  pub staging : Staging
  pub copy_base : ℕ
  pub msg_len : ℕ
  pub max_packet_size : ℕ

-- The packet of the token callback.
abbrev pub buffered : Staging → Packet
buffered s = record {
  fragmented = 0;
  continuation = s.fragment_continuation;
  msg_lens = s.packed_msg_lens;
  payload = s.fragmentation_data;
}

-- TOTEMPG_PACKET_SIZE
abbrev pub packet_size : ℕ → ℕ
packet_size net_mtu = net_mtu - mcast_size

abbrev pub send : Staging → Packet → Staging
send s p = record s { room = s.room - 1; sent = s.sent ++ p ∷ [] }

-- byte_count_send_ok
unfoldable pub byte_count_send_ok : ℕ → Staging → ℕ → Bool
byte_count_send_ok net_mtu s byte_count = leb (byte_count / (net_mtu - mcast_size - 16) + 1) s.room

-- The branch where all of the iovec fits and room is left over.
unfoldable pub copy_all : Loop → List ℕ → Loop
copy_all l v =
    let s = l.staging in
    let rest = drop l.copy_base v in
    record l {
      staging = record s { fragmentation_data = s.fragmentation_data ++ rest; next_fragment = 1 };
      copy_base = 0;
      msg_len = (l.msg_len + length rest) % 2 ^ 16;
    }

-- How much of the iovec goes out when it just fits or is too big.
abbrev pub copy_len_of : Loop → List ℕ → ℕ
copy_len_of l v =
    let copy_len = length v - l.copy_base in
    let left = l.max_packet_size - length l.staging.fragmentation_data in
    if ltb copy_len left then copy_len else left

-- Whether the message goes on after this packet.
abbrev pub is_more : Loop → List ℕ → List (List ℕ) → Bool
is_more l v after = ltb 0 (length after) || ltb (l.copy_base + copy_len_of l v) (length v)

-- The number of a fragment: 0 stands for none.
abbrev pub fragment_number : Loop → ℕ
fragment_number l = if l.staging.next_fragment == 0 then 1 else l.staging.next_fragment

-- The packet of that branch. When it is full of this iovec, the bytes are sent from where they are.
unfoldable pub packet_of : Loop → List ℕ → List (List ℕ) → Packet
packet_of l v after =
    let s = l.staging in
    let chunk = take (copy_len_of l v) (drop l.copy_base v) in
    record {
      fragmented = if is_more l v after then fragment_number l else 0;
      continuation = s.fragment_continuation;
      msg_lens = s.packed_msg_lens ++ ((l.msg_len + copy_len_of l v) % 2 ^ 16) ∷ [];
      payload =
          if copy_len_of l v == l.max_packet_size then chunk else s.fragmentation_data ++ chunk;
    }

-- The numbers of the fragments after it.
unfoldable pub numbered : Loop → List ℕ → List (List ℕ) → Staging
numbered l v after =
    let s = l.staging in
    if is_more l v after
    then record s {
      fragment_continuation = fragment_number l;
      next_fragment = (fragment_number l + 1) % 256;
    }
    else record s { fragment_continuation = 0 }

-- The loop after a packet has gone: the buffer is empty.
unfoldable pub flushed : ℕ → Loop → List ℕ → List (List ℕ) → Loop
unfolding numbered packet_of
flushed net_mtu l v after =
    let done = l.copy_base + copy_len_of l v == length v in
    record {
      staging = record (send (numbered l v after) (packet_of l v after)) {
        fragmentation_data = [];
        packed_msg_lens = [];
      };
      copy_base = if done then 0 else l.copy_base + copy_len_of l v;
      msg_len = 0;
      max_packet_size = packet_size net_mtu - 2;
    }

-- The state when totemsrp_mcast refuses: the message has been counted.
unfoldable pub refused : Loop → List ℕ → List (List ℕ) → Staging
unfolding numbered packet_of
refused l v after = record (numbered l v after) { packed_msg_lens = (packet_of l v after).msg_lens }

abbrev pub fits : Loop → List ℕ → Bool
fits l v = ltb (length v + length l.staging.fragmentation_data) (sub64 l.max_packet_size 2)

-- After the loop, the message is counted if it left bytes in the buffer.
unfoldable pub count_message : Loop → Staging
count_message l =
    let s = l.staging in
    if l.msg_len == 0 then s else record s { packed_msg_lens = s.packed_msg_lens ++ l.msg_len ∷ [] }

-- Zero length iovecs are removed.
unfoldable pub remove_empty : List (List ℕ) → List (List ℕ)
remove_empty [] = []
remove_empty (v ∷ vs) = let rest = remove_empty vs in if length v == 0 then rest else v ∷ rest

unfoldable pub total_size : List (List ℕ) → ℕ
total_size [] = 0
total_size (v ∷ vs) = length v + total_size vs

-- The variables before the loop.
abbrev pub start : ℕ → Staging → Loop
start net_mtu s = record {
  staging = s;
  copy_base = 0;
  msg_len = 0;
  max_packet_size = packet_size net_mtu - 2 * (length s.packed_msg_lens + 1);
}

-- totemsrp_mcast is a parameter: whether it takes a packet. A packet that it takes uses room.
module _ (net_mtu : ℕ) (accepts : Packet → Bool) where
  -- The loop of mcast_msg over the iovecs, none of them empty. The outer `none` is a failed assertion, or
  -- that the fuel ran out; the Boolean is false for the result -1.
  unfoldable pub mcast_loop : ℕ → Loop → List (List ℕ) → Option (Staging × Bool)
  unfolding copy_all flushed refused packet_of count_message
  mcast_loop zero l iovecs = none
  mcast_loop (suc fuel) l [] = some (count_message l, true)
  mcast_loop (suc fuel) l (v ∷ after) =
      let copied = mcast_loop fuel (copy_all l v) after in
      let next = mcast_loop fuel (flushed net_mtu l v after) after in
      let again = mcast_loop fuel (flushed net_mtu l v after) (v ∷ after) in
      if fits l v
      then copied
      else if l.staging.room == 0
      then none
      else if not (accepts (packet_of l v after))
      then some (refused l v after, false)
      else if l.copy_base + copy_len_of l v == length v
      then next
      else again

  -- mcast_msg, for fewer than 64 iovecs, as it asserts.
  unfoldable pub mcast_msg : Staging → List (List ℕ) → Option (Staging × Bool)
  unfolding mcast_loop remove_empty total_size byte_count_send_ok
  mcast_msg s iovec_in =
      let iovecs = remove_empty iovec_in in
      let total = total_size iovecs in
      if not (ltb (length iovec_in) 64)
      then none
      else if not (byte_count_send_ok net_mtu s (total + 2 * length s.packed_msg_lens))
      then some (s, false)
      else mcast_loop (suc total) (start net_mtu s) iovecs

  -- callback_token_received_fn: the buffer goes out. Its call of totemsrp_mcast is not checked.
  unfoldable pub callback_token_received_fn : Staging → Staging
  callback_token_received_fn s =
      if length s.packed_msg_lens == 0 || s.room == 0
      then s
      else record (if accepts (buffered s) then send s (buffered s) else s) {
        fragment_continuation = 0;
        packed_msg_lens = [];
        fragmentation_data = [];
      }
