-- ===== src/Totempg/Sends.antt =====
-- What mcast_msg and the token callback of exec/totempg.c leave at a receiver and in the buffer.
use corosync.Prelude.{
  ℕ, zero, suc, ◌+◌, ◌*◌, ◌≤◌, ◌≡◌, refl, ap, ◌∙◌, subst, Bool, true, false, not, ◌||◌, inl, inr,
  Option, none, some, List, [], ◌∷◌, ◌++◌, length, arith, ltb, ◌==◌, if-cases, Bool-cases,
  if◌then◌else◌, is_empty,
}
use mathlib.Core.List.{append-nil}
use corosync.Totempg.Packets.{Packet}
use corosync.Totempg.Send.{
  Staging, Loop, buffered, send, copy_all, flushed, fits, refused, copy_len_of, packet_of,
  mcast_loop, start, count_message, remove_empty, total_size, byte_count_send_ok, mcast_msg,
  callback_token_received_fn,
}
use corosync.Totempg.Assembly.{Assembly, read, fresh}
use corosync.Totempg.Received.{Continues, deliver_last}
use corosync.Totempg.Stream.{messages, open_part}
use corosync.Totempg.Sent.{Limits, Holds, deliver_all-snoc}
use corosync.Totempg.Runs.{message_of}
use corosync.Totempg.Empty.{joined-remove_empty, remove_empty-NoneEmpty}
use corosync.Totempg.Loops.{joined, NoneEmpty}
use corosync.Totempg.Completes.{Sent, mcast_loop-Completes}

pub some_injective : {A : Type 0} (x y : A) → some x ≡ some y → x ≡ y
some_injective x y h = cc

module _ (net_mtu capacity most : ℕ) (first : Assembly) (c : Limits net_mtu capacity most)
    (accepts : Packet → Bool) (takes : (p : Packet) → accepts p ≡ true) where
  loop_answers :
      (fuel : ℕ) (l : Loop) (iovecs : List (List ℕ)) (t : Staging) (b : Bool)
      → mcast_loop net_mtu accepts fuel l iovecs ≡ some (t, b)
      → b ≡ true
  unfolding mcast_loop
  loop_answers zero l iovecs t b h = cc
  loop_answers (suc fuel) l [] t b h = cc
  loop_answers (suc fuel) l (v ∷ after) t b h =
      let next = mcast_loop net_mtu accepts fuel (flushed net_mtu l v after) after in
      let again = mcast_loop net_mtu accepts fuel (flushed net_mtu l v after) (v ∷ after) in
      let turned : Option (Staging × Bool) =
        if l.copy_base + copy_len_of l v == length v then next else again in
      let sent : Option (Staging × Bool) =
        if not (accepts (packet_of l v after)) then some (refused l v after, false) else turned in
      elim (if-cases (fits l v) (mcast_loop net_mtu accepts fuel (copy_all l v) after)
        (if l.staging.room == 0 then none else sent) _ h) [
          | inl (q, e) ↦ loop_answers fuel (copy_all l v) after t b e
          | inr (q, e) ↦ elim (if-cases (l.staging.room == 0) none sent _ e) [
            | inl (q, e) ↦ cc
            | inr (q, e) ↦
                elim (if-cases (not (accepts (packet_of l v after)))
                  (some (refused l v after, false)) turned _ e) [
                    | inl (q, e) ↦ ground (arith, takes (packet_of l v after), q)
                    | inr (q, e) ↦
                        elim (if-cases (l.copy_base + copy_len_of l v == length v) next again _ e) [
                          | inl (q, e) ↦ loop_answers fuel (flushed net_mtu l v after) after t b e
                          | inr (q, e) ↦
                              loop_answers fuel (flushed net_mtu l v after) (v ∷ after) t b e
                        ]
                  ]
          ]
        ]

  loop-Sent :
      (s t : Staging) (iovecs : List (List ℕ)) (done : List (List ℕ)) (fuel : ℕ)
      → NoneEmpty iovecs
      → length (joined iovecs) ≤ most
      → Sent net_mtu capacity most first c s done
      → mcast_loop net_mtu accepts (suc fuel) (start net_mtu s) iovecs ≡ some (t, true)
      → Sent net_mtu capacity most first c t (done ++ message_of iovecs)
  unfolding mcast_loop count_message
  loop-Sent s t [] done fuel n k h e =
      subst (λ u. Sent net_mtu capacity most first c u (done ++ []))
        (ap (λ r. r.0) (some_injective (s, true) (t, true) e)) (rw (append-nil done) h)
  loop-Sent s t ([] ∷ vs) done fuel n k h e = absurd (omega (arith, n))
  loop-Sent s t ((x ∷ v) ∷ vs) done fuel n k h e =
      mcast_loop-Completes net_mtu capacity most first c accepts t (suc fuel) (start net_mtu s)
        ((x ∷ v) ∷ vs) h.0 h.1 done [] h.2 n k e

  goes_on :
      (s : Staging) (a : Assembly) (out done : List (List ℕ))
      → Holds net_mtu capacity most first (start net_mtu s) a out done []
      → Continues capacity a (buffered s)
  goes_on s a out done h = record {
    is_waiting = h.is_waiting;
    next = h.next;
    whole = omega (arith, h.counted);
    room = omega (arith, h.size, h.below, h.kept, c.room);
  }

  -- The buffer at the receiver.
  buffered-Sent :
      (s : Staging) (done : List (List ℕ))
      → Sent net_mtu capacity most first c s done
      → Sent net_mtu capacity most first c
          (record (send s (buffered s)) {
            fragment_continuation = 0;
            packed_msg_lens = [];
            fragmentation_data = [];
          })
          done
  unfolding messages open_part read
  buffered-Sent s done (a, out, h) = (
    fresh _,
    out ++ messages (read a.bytes 0 a.index) s.packed_msg_lens s.fragmentation_data,
    record {
      got =
          deliver_all-snoc capacity first s.sent (buffered s) a (fresh _) out _ h.got
            (deliver_last capacity a (buffered s) (goes_on s a out done h) refl);
      is_waiting = refl;
      next = refl;
      whole_messages = append-nil _ ∙ h.whole_messages;
      part = refl;
      counted = refl;
      size = omega (arith, c.wide);
      below = omega (arith, c.wide);
      two = omega (arith, c.wide);
      kept = omega arith;
    },
  )

  pub token-Sent :
      (s : Staging) (done : List (List ℕ))
      → Sent net_mtu capacity most first c s done
      → Sent net_mtu capacity most first c (callback_token_received_fn net_mtu accepts s) done
  unfolding callback_token_received_fn
  token-Sent s done h = elim (Bool-cases (length s.packed_msg_lens == 0 || s.room == 0)) [
    | inl e ↦ rw e h
    | inr e ↦ rw (e, takes (buffered s)) (buffered-Sent s done h)
  ]

  pub message-Sent :
      (s t : Staging) (m : List (List ℕ)) (b : Bool) (done : List (List ℕ))
      → length (joined m) ≤ most
      → Sent net_mtu capacity most first c s done
      → mcast_msg net_mtu accepts s m ≡ some (t, b)
      → Sent net_mtu capacity most first c t (done ++ (if b then message_of m else []))
  unfolding mcast_msg
  message-Sent s t m b done k h e = elim (if-cases (not (ltb (length m) 64)) none _ _ e) [
    | inl (q, e) ↦ cc
    | inr (q, e) ↦
        elim (if-cases
          (not (
            byte_count_send_ok net_mtu s
              (total_size (remove_empty m) + 2 * length s.packed_msg_lens)))
          (some (s, false))
          (mcast_loop net_mtu accepts (suc (total_size (remove_empty m))) (start net_mtu s)
            (remove_empty m))
          _ e) [
            | inl (q, e) ↦
                subst
                  (λ r.
                    Sent net_mtu capacity most first c r.0
                      (done ++ (if r.1 then message_of m else [])))
                  (some_injective (s, false) (t, b) e) (rw (append-nil done) h)
            | inr (q, e) ↦
                let said : b ≡ true =
                  loop_answers (suc (total_size (remove_empty m))) (start net_mtu s)
                    (remove_empty m) t b e in
                rw said (
                  subst
                    (λ xs.
                      Sent net_mtu capacity most first c t
                        (done ++ (if is_empty xs then [] else xs ∷ [])))
                    (joined-remove_empty m)
                    (loop-Sent s t (remove_empty m) done (total_size (remove_empty m))
                      (remove_empty-NoneEmpty m)
                      (omega (arith, k, ap length (joined-remove_empty m))) h (rw said at e)))
          ]
  ]
