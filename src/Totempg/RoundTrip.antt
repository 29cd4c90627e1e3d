-- ===== src/Totempg/RoundTrip.antt =====
-- What a receiver of the packets of exec/totempg.c delivers, and what was sent.
use corosync.Prelude.{
  ℕ, ◌<◌, ◌≡◌, refl, ap, ◌∙◌, sym, subst, Bool, true, ◌||◌, inl, inr, some, List, [], ◌∷◌, ◌++◌,
  length, arith, ◌==◌, if-cases, bind-cases, if◌then◌else◌, ◌>>=◌,
}
use mathlib.Core.List.{append-nil, append_assoc}
use corosync.Totempg.Packets.{Packet}
use corosync.Totempg.Send.{Staging, buffered, send, start, mcast_msg, callback_token_received_fn}
use corosync.Totempg.Assembly.{Assembly, read, fresh, deliver_all}
use corosync.Totempg.Stream.{messages, open_part}
use corosync.Totempg.Sent.{Limits, Holds}
use corosync.Totempg.Runs.{Action, message_of, initial, run, after_message, NoLonger}
use corosync.Totempg.Sends.{some_injective, token-Sent, message-Sent}
use corosync.Totempg.Completes.{Sent}

module _ (net_mtu capacity most : ℕ) (first : Assembly) (c : Limits net_mtu capacity most)
    (accepts : Packet → Bool) (takes : (p : Packet) → accepts p ≡ true) where
  with_room :
      (n : ℕ) (s : Staging) (a : Assembly) (out done : List (List ℕ))
      → Holds net_mtu capacity most first (start net_mtu s) a out done []
      → Holds net_mtu capacity most first (start net_mtu (record s { room = n })) a out done []
  with_room n s a out done h = record {
    got = h.got;
    is_waiting = h.is_waiting;
    next = h.next;
    whole_messages = h.whole_messages;
    part = h.part;
    counted = h.counted;
    size = h.size;
    below = h.below;
    two = h.two;
    kept = h.kept;
  }

  run-Sent :
      (actions : List Action) (s t : Staging) (done sent : List (List ℕ))
      → NoLonger most actions
      → Sent net_mtu capacity most first c s done
      → run net_mtu accepts s actions ≡ some (t, sent)
      → Sent net_mtu capacity most first c t (done ++ sent)
  unfolding run
  run-Sent [] s t done sent k h e =
      subst (λ r. Sent net_mtu capacity most first c r.0 (done ++ r.1))
        (some_injective (s, []) (t, sent) e) (rw (append-nil done) h)
  run-Sent (Action.token ∷ actions) s t done sent k h e =
      run-Sent actions _ t done sent k
        (token-Sent net_mtu capacity most first c accepts takes s done h) e
  run-Sent (Action.room n ∷ actions) s t done sent k h e =
      run-Sent actions _ t done sent k (h.0, h.1, with_room n s h.0 h.1 done h.2) e
  run-Sent (Action.message m ∷ actions) s t done sent k h e =
      let r =
        bind-cases (mcast_msg net_mtu accepts s m)
          (λ r.
            run net_mtu accepts r.0 actions >>= after_message (if r.1 then message_of m else []))
          (t, sent) e in
      let q =
        bind-cases (run net_mtu accepts r.0.0 actions)
          (after_message (if r.0.1 then message_of m else [])) (t, sent) r.2 in
      let ms : List (List ℕ) = if r.0.1 then message_of m else [] in
      subst (λ r. Sent net_mtu capacity most first c r.0 (done ++ r.1))
        (some_injective (q.0.0, ms ++ q.0.1) (t, sent) q.2)
        (subst (λ xs. Sent net_mtu capacity most first c q.0.0 xs) (append_assoc done ms q.0.1)
          (run-Sent actions r.0.0 q.0.0 (done ++ ms) q.0.1 k.1
            (message-Sent net_mtu capacity most first c accepts takes s r.0.0 m r.0.1 done k.0 h
              r.1)
            q.1))

initial-Sent :
    (net_mtu capacity most n : ℕ) (bytes : ℕ → ℕ) (c : Limits net_mtu capacity most)
    → Sent net_mtu capacity most (fresh bytes) c (initial n) []
unfolding deliver_all messages open_part read
initial-Sent net_mtu capacity most n bytes c = (
  fresh bytes,
  [],
  record {
    got = refl;
    is_waiting = refl;
    next = refl;
    whole_messages = refl;
    part = refl;
    counted = refl;
    size = omega (arith, c.wide);
    below = omega (arith, c.wide);
    two = omega (arith, c.wide);
    kept = omega arith;
  },
)

no_lens : (lens : List ℕ) (room : ℕ) → 0 < room → (length lens == 0 || room == 0) ≡ true → lens ≡ []
no_lens [] room h q = refl
no_lens (l ∷ lens) room h q = ground (arith, h, q)

-- No messages are in the buffer after the token has come.
flushed_lens :
    (net_mtu : ℕ) (accepts : Packet → Bool) (s : Staging)
    → 0 < s.room
    → (callback_token_received_fn net_mtu accepts s).packed_msg_lens ≡ []
unfolding callback_token_received_fn
flushed_lens net_mtu accepts s h =
    elim (if-cases (length s.packed_msg_lens == 0 || s.room == 0) s emptied _ refl) [
      | inl (q, e) ↦ ap (λ r. r.packed_msg_lens) (sym e) ∙ no_lens s.packed_msg_lens s.room h q
      | inr (q, e) ↦ ap (λ r. r.packed_msg_lens) (sym e)
    ]
  where
    emptied : Staging
    emptied = record (if accepts (buffered s) then send s (buffered s) else s) {
      fragment_continuation = 0;
      packed_msg_lens = [];
      fragmentation_data = [];
    }

-- Whatever a node does, a receiver of the packets sent so far has the first of the messages with bytes that
-- the node sent, whole and in their order, when the network below takes each packet.
pub deliver_all-run_prefix :
    (net_mtu capacity most n : ℕ) (accepts : Packet → Bool) (bytes : ℕ → ℕ) (actions : List Action)
    (t : Staging) (sent : List (List ℕ))
    → Limits net_mtu capacity most
    → ((p : Packet) → accepts p ≡ true)
    → NoLonger most actions
    → run net_mtu accepts (initial n) actions ≡ some (t, sent)
    → (a : Assembly) × (out rest : List (List ℕ)) × (deliver_all capacity (fresh bytes) t.sent
        ≡ some (a, out))
      × (out ++ rest ≡ sent)
deliver_all-run_prefix net_mtu capacity most n accepts bytes actions t sent c takes k e =
    let h =
      run-Sent net_mtu capacity most (fresh bytes) c accepts takes actions (initial n) t [] sent k
        (initial-Sent net_mtu capacity most n bytes c) e in
    (
      h.0,
      h.1,
      messages (read h.0.bytes 0 h.0.index) t.packed_msg_lens t.fragmentation_data,
      h.2.got,
      h.2.whole_messages,
    )

-- Once the token has come with room for a packet, the receiver has the messages that the node sent, those with
-- bytes, whole and in their order, when the network below takes each packet.
pub deliver_all-run :
    (net_mtu capacity most n : ℕ) (accepts : Packet → Bool) (bytes : ℕ → ℕ) (actions : List Action)
    (t : Staging) (sent : List (List ℕ))
    → Limits net_mtu capacity most
    → ((p : Packet) → accepts p ≡ true)
    → NoLonger most actions
    → run net_mtu accepts (initial n) actions ≡ some (t, sent)
    → 0 < t.room
    → (a : Assembly) × (deliver_all capacity
          (fresh bytes)
          (callback_token_received_fn net_mtu accepts t).sent
        ≡ some (a, sent))
unfolding messages
deliver_all-run net_mtu capacity most n accepts bytes actions t sent c takes k e room =
    let s = callback_token_received_fn net_mtu accepts t in
    let h = token-Sent net_mtu capacity most (fresh bytes) c accepts takes t sent (
      run-Sent net_mtu capacity most (fresh bytes) c accepts takes actions (initial n) t [] sent k
        (initial-Sent net_mtu capacity most n bytes c) e) in
    let all : h.1 ≡ sent =
      sym (append-nil h.1)
      ∙ ap (λ lens. h.1 ++ messages (read h.0.bytes 0 h.0.index) lens s.fragmentation_data)
          (sym (flushed_lens net_mtu accepts t room))
      ∙ h.2.whole_messages in
    (h.0, h.2.got ∙ ap (λ ms. some (h.0, ms)) all)
