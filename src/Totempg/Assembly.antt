-- ===== src/Totempg/Assembly.antt =====
-- The assembly buffers and the delivery of exec/totempg.c.
use corosync.Prelude.{
  ℕ, zero, suc, ◌+◌, ◌-◌, Bool, true, false, not, ◌&&◌, ◌||◌, Option, none, some, List, [], ◌∷◌,
  ◌++◌, ltb, leb, ◌==◌, if◌then◌else◌, length, get_or, init_of, sum, ◌>>=◌,
}
use corosync.Totempg.Packets.{Packet, msg_len}

-- struct assembly, without its node id; `is_throwing` is THROW_AWAY_ACTIVE.
pub record Assembly : Type 0 where
  pub bytes : ℕ → ℕ
  pub index : ℕ
  pub last_frag_num : ℕ
  pub is_throwing : Bool

-- memcpy (&bytes[at], xs, length xs)
abbrev pub write : (ℕ → ℕ) → ℕ → List ℕ → ℕ → ℕ
write bytes at xs j = if leb at j && ltb j (at + length xs) then get_or 0 xs (j - at) else bytes j

-- The bytes that a pointer and a length stand for.
unfoldable pub read : (ℕ → ℕ) → ℕ → ℕ → List ℕ
read bytes at zero = []
read bytes at (suc n) = bytes at ∷ read bytes (suc at) n

-- memmove (&bytes[0], &bytes[from], n)
abbrev pub move_down : (ℕ → ℕ) → ℕ → ℕ → ℕ → ℕ
move_down bytes from n j = if ltb j n then bytes (from + j) else bytes j

-- The loop that delivers, from the second message on.
unfoldable pub later_messages : (ℕ → ℕ) → ℕ → List ℕ → List (List ℕ)
later_messages bytes index [] = []
later_messages bytes index (l ∷ lens) = read bytes index l ∷ later_messages bytes (index + l) lens

-- The first message starts at the first byte: it may be a continuation.
unfoldable pub delivered_messages : (ℕ → ℕ) → ℕ → List ℕ → List (List ℕ)
unfolding read later_messages
delivered_messages bytes index [] = []
delivered_messages bytes index (l ∷ lens) =
    read bytes 0 (index + l) ∷ later_messages bytes (index + l) lens

-- The lengths of the messages that end in the packet.
abbrev pub complete_lens : Packet → List ℕ
complete_lens p = if p.fragmented == 0 then p.msg_lens else init_of p.msg_lens

-- The middle of totempg_deliver_fn: what is delivered, and the assembly.
unfoldable pub deliver_complete : Assembly → Packet → Assembly × List (List ℕ)
unfolding delivered_messages
deliver_complete a p =
    if a.is_throwing
    then (
      if p.fragmented == 0 || p.fragmented == 1
          then record a { is_throwing = false; index = a.index + get_or 0 p.msg_lens 0 }
          else a,
      [],
    )
    else if p.continuation == a.last_frag_num
    then (
      record a { last_frag_num = p.fragmented; index = a.index + sum (complete_lens p) },
      delivered_messages a.bytes a.index (complete_lens p),
    )
    else (record a { is_throwing = true }, [])

-- What assembly_ref gives for a node without a buffer, whatever its bytes are.
abbrev pub fresh : (ℕ → ℕ) → Assembly
fresh bytes = record { bytes = bytes; index = 0; last_frag_num = 0; is_throwing = false }

-- The end of totempg_deliver_fn: a finished buffer is given back, and the next assembly_ref sets it up.
unfoldable pub keep_fragment : Assembly → Packet → Assembly
keep_fragment a p =
    let last_len = get_or 0 p.msg_lens (length (complete_lens p)) in
    if p.fragmented == 0
    then fresh a.bytes
    else if ltb 1 (length p.msg_lens)
    then record a { bytes = move_down a.bytes a.index last_len; index = last_len }
    else record a { index = a.index + last_len }

-- totempg_deliver_fn for one node's buffer and a packet of our byte order that holds its header and
-- lengths; a fragmented one has a message. `none` is the failed assertion on the size of the buffer.
unfoldable pub totempg_deliver_fn : ℕ → Assembly → Packet → Option (Assembly × List (List ℕ))
unfolding deliver_complete keep_fragment
totempg_deliver_fn capacity a p =
    if not (sum p.msg_lens == length p.payload)
    then some (a, [])
    else if not (ltb (a.index + msg_len p) capacity)
    then none
    else (let r = deliver_complete (record a { bytes = write a.bytes a.index p.payload }) p in
        some (keep_fragment r.0 p, r.1))

-- The messages of earlier packets come first.
abbrev pub prepend : List (List ℕ) → Assembly × List (List ℕ) → Option (Assembly × List (List ℕ))
prepend out r = some (r.0, out ++ r.1)

-- The packets of a node one after the other.
unfoldable pub deliver_all : ℕ → Assembly → List Packet → Option (Assembly × List (List ℕ))
deliver_all capacity a [] = some (a, [])
deliver_all capacity a (p ∷ ps) =
    totempg_deliver_fn capacity a p >>= λ r. deliver_all capacity r.0 ps >>= prepend r.1
