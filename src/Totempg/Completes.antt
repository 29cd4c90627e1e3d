-- ===== src/Totempg/Completes.antt =====
-- What mcast_msg of exec/totempg.c has sent of a message when it returns.
use corosync.Prelude.{
  ℕ, zero, suc, ◌+◌, ◌≤◌, ◌<◌, ◌≡◌, ◌≢◌, refl, ap, ◌∙◌, sym, Bool, true, false, some, List, [], ◌∷◌,
  ◌++◌, length, length-append, drop, arith, ◌==◌, eq→==, ne→==_false, subst,
}
use mathlib.Core.List.{append-nil, append_assoc}
use corosync.Totempg.Packets.{Packet}
use corosync.Totempg.Send.{
  Staging, Loop, copy_all, copy_len_of, is_more, flushed, fits, mcast_loop, start, count_message,
}
use corosync.Totempg.Assembly.{Assembly, read}
use corosync.Totempg.Flushed.{Ready, chunk, flush_last, flush_more}
use corosync.Totempg.Stream.{messages, open_part, messages_snoc, open_part_snoc}
use corosync.Totempg.Received.{sum-snoc}
use corosync.Totempg.Sent.{Limits, Holds, copy_all-Holds}
use corosync.Totempg.Loops.{
  joined, rest_of, HasBytes, Turn, turn, rest_of_start, rest_after, rest_within, loop_end,
  flushed_loop, lt_of, copy_all-HasBytes,
}

module _ (net_mtu capacity most : ℕ) (first : Assembly) (c : Limits net_mtu capacity most) where
  -- The message ends in the buffer.
  count_message-Holds :
      (l : Loop) (a : Assembly) (out done : List (List ℕ)) (consumed : List ℕ)
      → Holds net_mtu capacity most first l a out done consumed
      → HasBytes l []
      → Holds net_mtu capacity most first
          (start net_mtu (count_message l))
          a
          out
          (done ++ consumed ∷ [])
          []
  unfolding count_message
  count_message-Holds l a out done consumed h m =
      let s = l.staging in
      rw (counts l.msg_len m.0) record {
        got = h.got;
        is_waiting = h.is_waiting;
        next = h.next;
        whole_messages =
            ap (λ ms. out ++ ms)
              (messages_snoc _ s.packed_msg_lens l.msg_len s.fragmentation_data h.counted)
            ∙ sym (
                append_assoc out
                  (messages (read a.bytes 0 a.index) s.packed_msg_lens s.fragmentation_data)
                  (open_part (read a.bytes 0 a.index) s.packed_msg_lens s.fragmentation_data ∷ []))
            ∙ rw (h.whole_messages, h.part) refl;
        part = open_part_snoc _ s.packed_msg_lens l.msg_len s.fragmentation_data h.counted;
        counted = omega (arith, h.counted, sum-snoc s.packed_msg_lens l.msg_len);
        size =
            omega (arith, h.size, h.below, m, length-append {0} s.packed_msg_lens (l.msg_len ∷ []));
        below = omega (arith, h.size, m, length-append {0} s.packed_msg_lens (l.msg_len ∷ []));
        two =
            omega
              (arith, h.size, h.counted, m, length-append {0} s.packed_msg_lens (l.msg_len ∷ []));
        kept = h.kept;
      }
    where
      counts : (n : ℕ) → 0 < n → (n == 0) ≡ false
      counts n p = ground arith

  -- No bytes of it are left.
  start-Holds :
      (l : Loop) (a : Assembly) (out done : List (List ℕ))
      → Holds net_mtu capacity most first l a out done []
      → l.msg_len ≡ 0
      → Holds net_mtu capacity most first (start net_mtu (count_message l)) a out done []
  unfolding count_message
  start-Holds l a out done h m = rw m record {
    got = h.got;
    is_waiting = h.is_waiting;
    next = h.next;
    whole_messages = h.whole_messages;
    part = h.part;
    counted = omega (arith, h.counted, m);
    size = omega (arith, h.size);
    below = omega (arith, h.size, h.below);
    two = omega (arith, h.size, h.two);
    kept = h.kept;
  }

  ready :
      (l : Loop) (v : List ℕ) (a : Assembly) (out done : List (List ℕ)) (consumed : List ℕ)
      → Holds net_mtu capacity most first l a out done consumed
      → l.copy_base < length v
      → Ready net_mtu capacity most first l v a out done consumed
  ready l v a out done consumed h b = record { limits = c; holds = h; left = b }

  -- A receiver of what `t` has sent has the messages, with those in the buffer.
  abbrev pub Sent : Staging → List (List ℕ) → Type 0
  Sent t messages =
      (a : Assembly) × (out : List (List ℕ)) × Holds net_mtu capacity most first (start net_mtu t) a
        out messages []

  module _ (accepts : Packet → Bool) (t : Staging) where
    -- The loop sends what there is of the message.
    abbrev Completes : ℕ → Type 0
    Completes fuel =
        (l : Loop) (iovecs : List (List ℕ)) (a : Assembly) (out done : List (List ℕ))
        (consumed : List ℕ)
        → Holds net_mtu capacity most first l a out done consumed
        → HasBytes l iovecs
        → length (consumed ++ rest_of l.copy_base iovecs) ≤ most
        → mcast_loop net_mtu accepts fuel l iovecs ≡ some (t, true)
        → Sent t (done ++ (consumed ++ rest_of l.copy_base iovecs) ∷ [])

    copied-Completes :
        (fuel : ℕ) (l : Loop) (v : List ℕ) (after : List (List ℕ)) (a : Assembly)
        (out done : List (List ℕ)) (consumed : List ℕ)
        → Completes fuel
        → Holds net_mtu capacity most first l a out done consumed
        → HasBytes l (v ∷ after)
        → length (consumed ++ rest_of l.copy_base (v ∷ after)) ≤ most
        → fits l v ≡ true
        → mcast_loop net_mtu accepts fuel (copy_all l v) after ≡ some (t, true)
        → Sent t (done ++ (consumed ++ rest_of l.copy_base (v ∷ after)) ∷ [])
    unfolding copy_all
    copied-Completes fuel l v after a out done consumed ih h b k f e =
        let whole : (consumed ++ drop l.copy_base v) ++ rest_of 0 after
            ≡ consumed ++ (drop l.copy_base v ++ joined after) =
          rw (rest_of_start after) (append_assoc consumed (drop l.copy_base v) (joined after)) in
        subst (λ xs. Sent t (done ++ xs ∷ [])) whole
          (ih (copy_all l v) after a out done (consumed ++ drop l.copy_base v)
            (copy_all-Holds net_mtu capacity most first l v a out done consumed c h b.0 f)
            (copy_all-HasBytes l v after h.two f (omega (arith, h.counted))
              (omega (arith, h.size, c.narrow)) b)
            (omega (arith, k, ap length whole)) e)

    -- A packet after which the message goes on, with `iovecs` left.
    more_Completes :
        (fuel : ℕ) (l : Loop) (v : List ℕ) (after iovecs : List (List ℕ)) (a : Assembly)
        (out done : List (List ℕ)) (consumed : List ℕ)
        → Completes fuel
        → Holds net_mtu capacity most first l a out done consumed
        → l.copy_base < length v
        → is_more l v after ≡ true
        → length (consumed ++ rest_of l.copy_base (v ∷ after)) ≤ most
        → (consumed ++ chunk l v) ++ rest_of (flushed net_mtu l v after).copy_base iovecs
          ≡ consumed ++ rest_of l.copy_base (v ∷ after)
        → HasBytes (flushed net_mtu l v after) iovecs
        → mcast_loop net_mtu accepts fuel (flushed net_mtu l v after) iovecs ≡ some (t, true)
        → Sent t (done ++ (consumed ++ rest_of l.copy_base (v ∷ after)) ∷ [])
    more_Completes fuel l v after iovecs a out done consumed ih h b m k whole more e =
        let g = flushed net_mtu l v after in
        let r =
          flush_more net_mtu capacity most first l v after a out done consumed
            (ready l v a out done consumed h b) m
            (omega (
              arith,
              k,
              ap length whole,
              length-append {0} (consumed ++ chunk l v) (rest_of g.copy_base iovecs),
            )) in
        subst (λ xs. Sent t (done ++ xs ∷ [])) whole
          (ih g iovecs r.0 r.1 done (consumed ++ chunk l v) r.2 more
            (omega (arith, k, ap length whole)) e)

    finished-Completes :
        (fuel : ℕ) (l : Loop) (v : List ℕ) (after : List (List ℕ)) (a : Assembly)
        (out done : List (List ℕ)) (consumed : List ℕ)
        → Completes fuel
        → Holds net_mtu capacity most first l a out done consumed
        → HasBytes l (v ∷ after)
        → length (consumed ++ rest_of l.copy_base (v ∷ after)) ≤ most
        → l.copy_base + copy_len_of l v ≡ length v
        → mcast_loop net_mtu accepts fuel (flushed net_mtu l v after) after ≡ some (t, true)
        → Sent t (done ++ (consumed ++ rest_of l.copy_base (v ∷ after)) ∷ [])
    finished-Completes fuel l v [] a out done consumed ih h b k d e =
        let r =
          flush_last net_mtu capacity most first l v [] a out done consumed
            (ready l v a out done consumed h b.0) (ground (arith, d)) in
        let whole : consumed ++ chunk l v ≡ consumed ++ (drop l.copy_base v ++ []) =
          sym (append-nil (consumed ++ chunk l v)) ∙ rest_after l v [] consumed d in
        subst (λ xs. Sent t (done ++ xs ∷ [])) whole
          (
            r.0,
            r.1,
            subst
                (λ s.
                  Holds net_mtu capacity most first (start net_mtu s) r.0 r.1
                    (done ++ (consumed ++ chunk l v) ∷ []) [])
                (loop_end net_mtu accepts fuel (flushed net_mtu l v []) t e)
                (start-Holds (flushed net_mtu l v []) r.0 r.1 (done ++ (consumed ++ chunk l v) ∷ [])
                  r.2 (flushed_loop net_mtu l v []).0),
          )
    finished-Completes fuel l v (w ∷ after) a out done consumed ih h b k d e =
        let g = flushed net_mtu l v (w ∷ after) in
        let at_start : g.copy_base ≡ 0 =
          (flushed_loop net_mtu l v (w ∷ after)).1 ∙ rw (eq→== _ _ d) refl in
        let whole : (consumed ++ chunk l v) ++ rest_of g.copy_base (w ∷ after)
            ≡ consumed ++ (drop l.copy_base v ++ joined (w ∷ after)) =
          ap (λ n. (consumed ++ chunk l v) ++ rest_of n (w ∷ after)) at_start
          ∙ rest_after l v (w ∷ after) consumed d in
        more_Completes fuel l v (w ∷ after) (w ∷ after) a out done consumed ih h b.0 (ground arith)
          k whole (omega (arith, at_start, b), b.1.1) e

    unfinished-Completes :
        (fuel : ℕ) (l : Loop) (v : List ℕ) (after : List (List ℕ)) (a : Assembly)
        (out done : List (List ℕ)) (consumed : List ℕ)
        → Completes fuel
        → Holds net_mtu capacity most first l a out done consumed
        → HasBytes l (v ∷ after)
        → length (consumed ++ rest_of l.copy_base (v ∷ after)) ≤ most
        → l.copy_base + copy_len_of l v ≢ length v
        → mcast_loop net_mtu accepts fuel (flushed net_mtu l v after) (v ∷ after) ≡ some (t, true)
        → Sent t (done ++ (consumed ++ rest_of l.copy_base (v ∷ after)) ∷ [])
    unfinished-Completes fuel l v after a out done consumed ih h b k d e =
        let g = flushed net_mtu l v after in
        let further : g.copy_base ≡ l.copy_base + copy_len_of l v =
          (flushed_loop net_mtu l v after).1 ∙ rw (ne→==_false _ _ d) refl in
        let whole : (consumed ++ chunk l v) ++ rest_of g.copy_base (v ∷ after)
            ≡ consumed ++ (drop l.copy_base v ++ joined after) =
          ap (λ n. (consumed ++ chunk l v) ++ rest_of n (v ∷ after)) further
          ∙ rest_within l v after consumed in
        let within : l.copy_base + copy_len_of l v < length v = lt_of l v b.0 h.below d in
        more_Completes fuel l v after (v ∷ after) a out done consumed ih h b.0
          (ground (arith, within)) k whole (omega (arith, further, within), b.1) e

    pub mcast_loop-Completes : (fuel : ℕ) → Completes fuel
    unfolding mcast_loop
    mcast_loop-Completes zero l iovecs a out done consumed h b k e = cc
    mcast_loop-Completes (suc fuel) l [] a out done consumed h b k e = (
      a,
      out,
      subst
          (λ s.
            Holds net_mtu capacity most first (start net_mtu s) a out
              (done ++ (consumed ++ []) ∷ []) [])
          (loop_end net_mtu accepts (suc fuel) l t e)
          (count_message-Holds l a out done (consumed ++ []) (rw (append-nil consumed) h) b),
    )
    mcast_loop-Completes (suc fuel) l (v ∷ after) a out done consumed h b k e =
        elim (turn net_mtu accepts fuel l v after t e) [
          | Turn.copied f e ↦
              copied-Completes fuel l v after a out done consumed (mcast_loop-Completes fuel) h b k
                f e
          | Turn.finished d e ↦
              finished-Completes fuel l v after a out done consumed (mcast_loop-Completes fuel) h b
                k d e
          | Turn.unfinished d e ↦
              unfinished-Completes fuel l v after a out done consumed (mcast_loop-Completes fuel) h
                b k d e
        ]
