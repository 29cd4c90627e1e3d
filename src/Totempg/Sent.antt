-- ===== src/Totempg/Sent.antt =====
-- What the packets of mcast_msg and the buffer behind them stand for, in exec/totempg.c.
use corosync.Prelude.{
  ℕ, zero, suc, ◌+◌, ◌-◌, ◌*◌, ◌%◌, ◌^◌, ◌≤◌, ◌<◌, ◌≡◌, refl, ap, ◌∙◌, sym, true, false, Option,
  none, some, List, [], ◌∷◌, ◌++◌, length, length-append, drop, sum, arith, ◌>>=◌,
}
use mathlib.Core.List.{append-nil, append_assoc}
use corosync.Totempg.Packets.{Packet}
use corosync.Totempg.Send.{Loop, packet_size, copy_all, fits}
use corosync.Totempg.Assembly.{Assembly, read, prepend, totempg_deliver_fn, deliver_all}
use corosync.Totempg.Stream.{messages, open_part, messages-append, open_part-append, length-drop}

-- The sizes of a node: the packets have room for more than their header and one length, their lengths
-- fit in 16 bits, and a buffer of the receiver takes a packet behind the longest message.
pub record Limits (net_mtu capacity most : ℕ) : Type 0 where
  pub wide : 5 ≤ packet_size net_mtu
  pub narrow : packet_size net_mtu < 2 ^ 16
  pub room : most + packet_size net_mtu + 8 < capacity

-- A receiver that starts with `first` has taken the packets sent, and holds `a`. With the buffer of the
-- sender it has the messages `done`, and `consumed` of the next one.
pub record Holds (net_mtu capacity most : ℕ) (first : Assembly) (l : Loop) (a : Assembly)
    (out done : List (List ℕ)) (consumed : List ℕ) : Type 0 where
  pub got : deliver_all capacity first l.staging.sent ≡ some (a, out)
  pub is_waiting : a.is_throwing ≡ false
  pub next : l.staging.fragment_continuation ≡ a.last_frag_num
  pub whole_messages :
      out
        ++ messages (read a.bytes 0 a.index) l.staging.packed_msg_lens l.staging.fragmentation_data
      ≡ done
  pub part :
      open_part (read a.bytes 0 a.index) l.staging.packed_msg_lens l.staging.fragmentation_data
      ≡ consumed
  pub counted : sum l.staging.packed_msg_lens + l.msg_len ≡ length l.staging.fragmentation_data
  pub size : l.max_packet_size + 2 * (length l.staging.packed_msg_lens + 1) ≡ packet_size net_mtu
  pub below : length l.staging.fragmentation_data < l.max_packet_size
  pub two : 2 ≤ l.max_packet_size
  pub kept : a.index ≤ most

pub length-read : (bytes : ℕ → ℕ) (from n : ℕ) → length (read bytes from n) ≡ n
unfolding read
length-read bytes from zero = refl
length-read bytes from (suc n) = ap suc (length-read bytes (suc from) n)

pub prepend_nil : (m : Option (Assembly × List (List ℕ))) → m ≡ (m >>= prepend [])
prepend_nil none = refl
prepend_nil (some r) = refl

prepend-append :
    (xs ys : List (List ℕ)) (m : Option (Assembly × List (List ℕ)))
    → (m >>= prepend ys >>= prepend xs) ≡ (m >>= prepend (xs ++ ys))
prepend-append xs ys none = refl
prepend-append xs ys (some r) = ap (λ ms. some (r.0, ms)) (sym (append_assoc xs ys r.1))

-- What one result gives with the packets behind it.
abbrev followed :
    ℕ → List Packet → Option (Assembly × List (List ℕ)) → Option (Assembly × List (List ℕ))
followed capacity qs m = m >>= λ r. deliver_all capacity r.0 qs >>= prepend r.1

prepended :
    (capacity : ℕ) (qs : List Packet) (out : List (List ℕ)) (m : Option (Assembly × List (List ℕ)))
    → (followed capacity qs m >>= prepend out) ≡ followed capacity qs (m >>= prepend out)
prepended capacity qs out none = refl
prepended capacity qs out (some r) = prepend-append out r.1 (deliver_all capacity r.0 qs)

deliver_all-append :
    (capacity : ℕ) (first : Assembly) (ps qs : List Packet)
    → deliver_all capacity first (ps ++ qs) ≡ followed capacity qs (deliver_all capacity first ps)
unfolding deliver_all
deliver_all-append capacity first [] qs = prepend_nil (deliver_all capacity first qs)
deliver_all-append capacity first (p ∷ ps) qs =
    elim (totempg_deliver_fn capacity first p)
      as (λ m.
        (m >>= λ r. deliver_all capacity r.0 (ps ++ qs) >>= prepend r.1)
        ≡ followed capacity qs (m >>= λ r. deliver_all capacity r.0 ps >>= prepend r.1)) [
          | none ↦ refl
          | some r ↦
              rw (deliver_all-append capacity r.0 ps qs)
                (prepended capacity qs r.1 (deliver_all capacity r.0 ps))
        ]

pub deliver_all-snoc :
    (capacity : ℕ) (first : Assembly) (ps : List Packet) (p : Packet) (a b : Assembly)
    (out more : List (List ℕ))
    → deliver_all capacity first ps ≡ some (a, out)
    → totempg_deliver_fn capacity a p ≡ some (b, more)
    → deliver_all capacity first (ps ++ p ∷ []) ≡ some (b, out ++ more)
unfolding deliver_all
deliver_all-snoc capacity first ps p a b out more g h =
    deliver_all-append capacity first ps (p ∷ [])
    ∙ rw (g, h) (ap (λ ms. some (b, out ++ ms)) (append-nil more))

pub copied-counts :
    (l : Loop) (v : List ℕ)
    → l.copy_base < length v
    → fits l v ≡ true
    → 2 ≤ l.max_packet_size
    → length l.staging.fragmentation_data + length (drop l.copy_base v) < l.max_packet_size - 2
copied-counts l v b f t = ground (arith, length-drop l.copy_base v (omega (arith, b)))

counted_rest :
    (net_mtu : ℕ) (l : Loop) (rest : List ℕ)
    → packet_size net_mtu < 2 ^ 16
    → sum l.staging.packed_msg_lens + l.msg_len ≡ length l.staging.fragmentation_data
    → l.max_packet_size + 2 * (length l.staging.packed_msg_lens + 1) ≡ packet_size net_mtu
    → length l.staging.fragmentation_data + length rest < l.max_packet_size - 2
    → sum l.staging.packed_msg_lens + (l.msg_len + length rest) % 2 ^ 16
      ≡ length (l.staging.fragmentation_data ++ rest)
counted_rest net_mtu l rest n e s b =
    omega (arith, n, e, s, b, length-append {0} l.staging.fragmentation_data rest)

pub copy_all-Holds :
    (net_mtu capacity most : ℕ) (first : Assembly) (l : Loop) (v : List ℕ) (a : Assembly)
    (out done : List (List ℕ)) (consumed : List ℕ)
    → Limits net_mtu capacity most
    → Holds net_mtu capacity most first l a out done consumed
    → l.copy_base < length v
    → fits l v ≡ true
    → Holds net_mtu capacity most first (copy_all l v) a out done (consumed ++ drop l.copy_base v)
unfolding copy_all
copy_all-Holds net_mtu capacity most first l v a out done consumed c h b f =
    let s = l.staging in
    let before = read a.bytes 0 a.index in
    let rest = drop l.copy_base v in
    record {
      got = h.got;
      is_waiting = h.is_waiting;
      next = h.next;
      whole_messages =
          ap (λ ms. out ++ ms)
            (messages-append before s.packed_msg_lens s.fragmentation_data rest
              (omega (arith, h.counted)))
          ∙ h.whole_messages;
      part =
          open_part-append before s.packed_msg_lens s.fragmentation_data rest
            (omega (arith, h.counted))
          ∙ ap (λ xs. xs ++ rest) h.part;
      counted =
          counted_rest net_mtu l (drop l.copy_base v) c.narrow h.counted h.size
            (copied-counts l v b f h.two);
      size = h.size;
      below =
          omega (arith, copied-counts l v b f h.two, length-append {0} s.fragmentation_data rest);
      two = h.two;
      kept = h.kept;
    }
