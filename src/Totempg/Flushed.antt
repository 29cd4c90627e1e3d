-- ===== src/Totempg/Flushed.antt =====
-- The packet that mcast_msg of exec/totempg.c sends when an iovec does not fit, at its receiver.
use corosync.Prelude.{
  ℕ, ◌+◌, ◌%◌, ◌^◌, ◌≤◌, ◌<◌, ◌≡◌, refl, ap, ◌∙◌, sym, Bool, true, false, some, List, [], ◌∷◌, ◌++◌,
  length, length-append, take, drop, sum, arith, ◌==◌, ==→eq, if◌then◌else◌,
}
use mathlib.Core.List.{append-nil, append_assoc}
use corosync.Totempg.Send.{
  Loop, copy_len_of, is_more, fragment_number, packet_of, numbered, flushed,
}
use corosync.Totempg.Assembly.{Assembly, read, fresh, totempg_deliver_fn, deliver_all}
use corosync.Totempg.Stream.{
  messages, open_part, messages-append, open_part-append, messages_snoc, length-drop, length-take,
}
use corosync.Totempg.Received.{Continues, deliver_last, deliver_fragment, sum-snoc}
use corosync.Totempg.Sent.{Limits, Holds, deliver_all-snoc, length-read}

-- What goes out of the iovec.
abbrev pub chunk : Loop → List ℕ → List ℕ
chunk l v = take (copy_len_of l v) (drop l.copy_base v)

pub length-chunk :
    (l : Loop) (v : List ℕ) → l.copy_base < length v → length (chunk l v) ≡ copy_len_of l v
length-chunk l v b =
    length-take (copy_len_of l v) (drop l.copy_base v)
      (ground (arith, length-drop l.copy_base v (omega (arith, b))))

pub copy_len_bounds :
    (l : Loop) (v : List ℕ)
    → l.copy_base < length v
    → length l.staging.fragmentation_data < l.max_packet_size
    → (1 ≤ copy_len_of l v)
      × (length l.staging.fragmentation_data + copy_len_of l v ≤ l.max_packet_size)
      × (l.copy_base + copy_len_of l v ≤ length v)
copy_len_bounds l v b h = ground (arith, b, h)

empty : (xs : List ℕ) → length xs ≡ 0 → xs ≡ []
empty [] h = refl
empty (x ∷ xs) h = absurd (omega (arith, h))

same_bytes :
    (t : Bool) (xs ys : List ℕ) → (t ≡ true → xs ≡ []) → (if t then ys else xs ++ ys) ≡ xs ++ ys
same_bytes true xs ys h = rw (h refl) refl
same_bytes false xs ys h = refl

packet_of-payload :
    (l : Loop) (v : List ℕ) (after : List (List ℕ))
    → l.copy_base < length v
    → length l.staging.fragmentation_data < l.max_packet_size
    → (packet_of l v after).payload ≡ l.staging.fragmentation_data ++ chunk l v
unfolding packet_of
packet_of-payload l v after b h =
    same_bytes (copy_len_of l v == l.max_packet_size) l.staging.fragmentation_data (chunk l v) (λ e.
      empty l.staging.fragmentation_data (omega (arith, ==→eq _ _ e, (copy_len_bounds l v b h))))

packet_of-msg_lens :
    (l : Loop) (v : List ℕ) (after : List (List ℕ))
    → l.msg_len + copy_len_of l v < 2 ^ 16
    → (packet_of l v after).msg_lens
      ≡ l.staging.packed_msg_lens ++ (l.msg_len + copy_len_of l v) ∷ []
unfolding packet_of
packet_of-msg_lens l v after n =
    ap (λ k. l.staging.packed_msg_lens ++ k ∷ []) (small (l.msg_len + copy_len_of l v) n)
  where
    small : (k : ℕ) → k < 2 ^ 16 → k % 2 ^ 16 ≡ k
    small k h = omega (arith, h)

packet_of-continuation :
    (l : Loop) (v : List ℕ) (after : List (List ℕ))
    → (packet_of l v after).continuation ≡ l.staging.fragment_continuation
unfolding packet_of
packet_of-continuation l v after = refl

packet_of-fragmented :
    (l : Loop) (v : List ℕ) (after : List (List ℕ))
    → (packet_of l v after).fragmented ≡ (if is_more l v after then fragment_number l else 0)
unfolding packet_of
packet_of-fragmented l v after = refl

-- The state of a receiver and the sender's buffer, with an iovec of which there is still something.
pub record Ready (net_mtu capacity most : ℕ) (first : Assembly) (l : Loop) (v : List ℕ)
    (a : Assembly) (out done : List (List ℕ)) (consumed : List ℕ) : Type 0 where
  pub limits : Limits net_mtu capacity most
  pub holds : Holds net_mtu capacity most first l a out done consumed
  pub left : l.copy_base < length v

module _ (net_mtu capacity most : ℕ) (first : Assembly) (l : Loop) (v : List ℕ)
    (after : List (List ℕ)) (a : Assembly) (out done : List (List ℕ)) (consumed : List ℕ)
    (r : Ready net_mtu capacity most first l v a out done consumed) where
  bounds :
      (1 ≤ copy_len_of l v)
      × (length l.staging.fragmentation_data + copy_len_of l v ≤ l.max_packet_size)
      × (l.copy_base + copy_len_of l v ≤ length v)
  bounds = copy_len_bounds l v r.left r.holds.below

  payload_lem : (packet_of l v after).payload ≡ l.staging.fragmentation_data ++ chunk l v
  payload_lem = packet_of-payload l v after r.left r.holds.below

  msg_lens_lem :
      (packet_of l v after).msg_lens
      ≡ l.staging.packed_msg_lens ++ (l.msg_len + copy_len_of l v) ∷ []
  msg_lens_lem =
      packet_of-msg_lens l v after
        (omega (arith, bounds, r.limits.narrow, r.holds.size, r.holds.counted))

  length-payload :
      length (l.staging.fragmentation_data ++ chunk l v)
      ≡ length l.staging.fragmentation_data + copy_len_of l v
  length-payload =
      length-append {0} l.staging.fragmentation_data (chunk l v)
      ∙ ap (λ n. length l.staging.fragmentation_data + n) (length-chunk l v r.left)

  continues : Continues capacity a (packet_of l v after)
  continues = record {
    is_waiting = r.holds.is_waiting;
    next = packet_of-continuation l v after ∙ r.holds.next;
    whole =
        ap sum msg_lens_lem
        ∙ sum-snoc l.staging.packed_msg_lens _
        ∙ omega (arith, r.holds.counted, length-payload, ap length payload_lem);
    room = omega (
      arith,
      r.holds.size,
      r.holds.kept,
      r.limits.room,
      bounds,
      length-payload,
      ap length payload_lem,
      ap length msg_lens_lem,
      length-append {0} l.staging.packed_msg_lens ((l.msg_len + copy_len_of l v) ∷ []),
    );
  }

  messages_in :
      messages
        (read a.bytes 0 a.index)
        l.staging.packed_msg_lens
        (l.staging.fragmentation_data ++ chunk l v)
      ≡ messages (read a.bytes 0 a.index) l.staging.packed_msg_lens l.staging.fragmentation_data
  messages_in =
      messages-append _ l.staging.packed_msg_lens l.staging.fragmentation_data (chunk l v)
        (omega (arith, r.holds.counted))

  part_in :
      open_part
        (read a.bytes 0 a.index)
        l.staging.packed_msg_lens
        (l.staging.fragmentation_data ++ chunk l v)
      ≡ consumed ++ chunk l v
  part_in =
      open_part-append _ l.staging.packed_msg_lens l.staging.fragmentation_data (chunk l v)
        (omega (arith, r.holds.counted))
      ∙ ap (λ xs. xs ++ chunk l v) r.holds.part

  counted_messages :
      messages (read a.bytes 0 a.index) (packet_of l v after).msg_lens (packet_of l v after).payload
      ≡ messages (read a.bytes 0 a.index) l.staging.packed_msg_lens l.staging.fragmentation_data
        ++ (consumed ++ chunk l v) ∷ []
  counted_messages =
      rw (msg_lens_lem, payload_lem)
        (messages_snoc (read a.bytes 0 a.index) l.staging.packed_msg_lens
            (l.msg_len + copy_len_of l v) (l.staging.fragmentation_data ++ chunk l v)
            (omega (arith, r.holds.counted, length-payload))
          ∙ rw (messages_in, part_in) refl)

  flushed-sent :
      (flushed net_mtu l v after).staging.sent ≡ l.staging.sent ++ packet_of l v after ∷ []
  unfolding flushed numbered
  flushed-sent = ground arith

  flushed-continuation :
      (flushed net_mtu l v after).staging.fragment_continuation ≡ (packet_of l v after).fragmented
  unfolding flushed numbered packet_of
  flushed-continuation = ground arith

  -- The state after a packet, at any receiver that has taken it.
  flushed-Holds :
      (b : Assembly) (more done' : List (List ℕ)) (consumed' : List ℕ)
      → totempg_deliver_fn capacity a (packet_of l v after) ≡ some (b, more)
      → b.is_throwing ≡ false
      → b.last_frag_num ≡ (packet_of l v after).fragmented
      → b.index ≤ most
      → out ++ more ≡ done'
      → read b.bytes 0 b.index ≡ consumed'
      → Holds net_mtu capacity most first
          (flushed net_mtu l v after)
          b
          (out ++ more)
          done'
          consumed'
  unfolding flushed messages open_part
  flushed-Holds b more done' consumed' d t n i m k = record {
    got =
        ap (deliver_all capacity first) flushed-sent
        ∙ deliver_all-snoc capacity first l.staging.sent (packet_of l v after) a b out more
            r.holds.got d;
    is_waiting = t;
    next = flushed-continuation ∙ sym n;
    whole_messages = append-nil (out ++ more) ∙ m;
    part = append-nil _ ∙ k;
    counted = refl;
    size = omega (arith, r.limits.wide);
    below = omega (arith, r.limits.wide);
    two = omega (arith, r.limits.wide);
    kept = i;
  }

  unnumbered : is_more l v after ≡ false → (packet_of l v after).fragmented ≡ 0
  unnumbered m = packet_of-fragmented l v after ∙ rw m refl

  is_numbered : is_more l v after ≡ true → 0 < (packet_of l v after).fragmented
  is_numbered m = ground (arith, m, packet_of-fragmented l v after)

  -- The last packet of a message.
  pub flush_last :
      is_more l v after ≡ false
      → (b : Assembly) × (out' : List (List ℕ)) × Holds net_mtu capacity most first
          (flushed net_mtu l v after)
          b
          out'
          (done ++ (consumed ++ chunk l v) ∷ [])
          []
  unfolding read
  flush_last m = (
    fresh _,
    out
        ++ messages (read a.bytes 0 a.index) (packet_of l v after).msg_lens
            (packet_of l v after).payload,
    flushed-Holds (fresh _) _ (done ++ (consumed ++ chunk l v) ∷ []) []
        (deliver_last capacity a (packet_of l v after) continues (unnumbered m)) refl
        (sym (unnumbered m)) (omega arith)
        (ap (λ ms. out ++ ms) counted_messages
          ∙ sym (append_assoc out _ _)
          ∙ ap (λ ms. ms ++ (consumed ++ chunk l v) ∷ []) r.holds.whole_messages)
        refl,
  )

  -- A packet after which the message goes on.
  pub flush_more :
      is_more l v after ≡ true
      → length (consumed ++ chunk l v) ≤ most
      → (b : Assembly) × (out' : List (List ℕ)) × Holds net_mtu capacity most first
          (flushed net_mtu l v after)
          b
          out'
          done
          (consumed ++ chunk l v)
  flush_more m k =
      let p = packet_of l v after in
      let d =
        deliver_fragment capacity a p l.staging.packed_msg_lens (l.msg_len + copy_len_of l v)
          continues (is_numbered m) msg_lens_lem in
      let kept : read d.0.bytes 0 d.0.index ≡ consumed ++ chunk l v =
        d.4 ∙ rw payload_lem part_in in
      (
        d.0,
        out ++ messages (read a.bytes 0 a.index) l.staging.packed_msg_lens p.payload,
        flushed-Holds d.0 _ done (consumed ++ chunk l v) d.1 d.2 d.3
            (omega (arith, k, ap length kept, length-read d.0.bytes 0 d.0.index))
            (rw (payload_lem, messages_in) r.holds.whole_messages) kept,
      )
