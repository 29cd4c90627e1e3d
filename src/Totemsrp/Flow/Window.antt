-- ===== src/Totemsrp/Flow/Window.antt =====
-- The window of the flow control of exec/totemsrp.c over a whole ring.
use corosync.Prelude.{ℕ, ◌+◌, ◌≤◌, ◌<◌, ◌≡◌, refl, ap, List, [], ◌∷◌, ◌++◌, arith, u32_mod}
use corosync.Totemsrp.Flow.{Flow, FlowToken, window_left, share, fcc_calculate, fcc_token_update}

share_bound :
    (window_size : ℕ) (s : Flow) (token : FlowToken) (n : ℕ)
    → (share window_size s token n ≤ n) × (0 < n → 0 < share window_size s token n)
share_bound window_size s token n = (ground arith, λ p. ground (arith, p))

window_left_bound :
    (max_messages window_size : ℕ) (token : FlowToken)
    → window_size < u32_mod
    → token.fcc ≤ window_size
    → (window_left max_messages window_size token ≤ max_messages)
      × (window_left max_messages window_size token + token.fcc ≤ window_size)
      × (0 < max_messages
          → token.fcc < window_size
          → 0 < window_left max_messages window_size token)
window_left_bound max_messages window_size token w f =
    (ground (arith, w, f), ground (arith, w, f), λ p q. ground (arith, w, f, p, q))

allowed_lem :
    (max_messages window_size : ℕ) (s : Flow) (token : FlowToken) (backlog : ℕ)
    → window_size < u32_mod
    → token.fcc ≤ window_size
    → ((fcc_calculate max_messages window_size s token backlog).1 ≤ max_messages)
      × ((fcc_calculate max_messages window_size s token backlog).1 + token.fcc ≤ window_size)
      × (0 < max_messages
          → token.fcc < window_size
          → 0 < (fcc_calculate max_messages window_size s token backlog).1)
unfolding fcc_calculate
allowed_lem max_messages window_size s token backlog w f =
    let n = window_left max_messages window_size token in
    let b = share_bound window_size (record s { my_cbl = backlog }) token n in
    let l = window_left_bound max_messages window_size token w f in
    (omega (arith, b.0, l.0), omega (arith, b.0, l.1), λ p q. b.1 (l.2 p q))

-- When the window is not used up, a node may send something, no more than max_messages, and no more than what is
-- left of the window: a backlog elsewhere never stops a node.
pub fcc_calculate_lem :
    (max_messages window_size : ℕ) (s : Flow) (token : FlowToken) (backlog : ℕ)
    → window_size < u32_mod
    → 0 < max_messages
    → token.fcc < window_size
    → (0 < (fcc_calculate max_messages window_size s token backlog).1)
      × ((fcc_calculate max_messages window_size s token backlog).1 ≤ max_messages)
      × ((fcc_calculate max_messages window_size s token backlog).1 + token.fcc ≤ window_size)
fcc_calculate_lem max_messages window_size s token backlog w m f =
    let l = allowed_lem max_messages window_size s token backlog w (omega (arith, f)) in
    (l.2 m f, l.0, l.1)

-- The messages that nodes have sent in their last turns, and what waited then.
abbrev pub sent : List Flow → ℕ
sent [] = 0
sent (s ∷ nodes) = s.my_trc + sent nodes

abbrev pub waiting : List Flow → ℕ
waiting [] = 0
waiting (s ∷ nodes) = s.my_pbl + waiting nodes

-- A ring before its first token: nothing is sent.
abbrev pub AllNew : List Flow → Type 0
AllNew [] = Unit
AllNew (s ∷ nodes) = (s.my_trc ≡ 0) × (s.my_pbl ≡ 0) × AllNew nodes

-- What the token makes of the nodes of a ring: a node in any place sends no more than fcc_calculate allows, and no
-- more than `queue_size` messages wait at it.
pub data Reach (max_messages window_size queue_size : ℕ) : List Flow → FlowToken → Type 0 where
  start :
      (nodes : List Flow) (token : FlowToken)
      → AllNew nodes
      → token.fcc ≡ 0
      → token.backlog ≡ 0
      → Reach max_messages window_size queue_size nodes token
  visit :
      (before : List Flow) (s : Flow) (after : List Flow) (token : FlowToken) (backlog msgs seq : ℕ)
      (nodes : List Flow) (next : FlowToken)
      → Reach max_messages window_size queue_size (before ++ s ∷ after) token
      → backlog ≤ queue_size
      → msgs ≤ (fcc_calculate max_messages window_size s token backlog).1
      → nodes
        ≡ before
          ++ (fcc_token_update
              (fcc_calculate max_messages window_size s token backlog).0
              token
              msgs).0
            ∷ after
      → next
        ≡ record (fcc_token_update
            (fcc_calculate max_messages window_size s token backlog).0
            token
            msgs).1 { seq = seq }
      → Reach max_messages window_size queue_size nodes next

-- The room of all queues.
abbrev pub all_queues : ℕ → List Flow → ℕ
all_queues queue_size [] = 0
all_queues queue_size (s ∷ nodes) = queue_size + all_queues queue_size nodes

abbrev InQueues : ℕ → List Flow → Type 0
InQueues queue_size [] = Unit
InQueues queue_size (s ∷ nodes) = (s.my_pbl ≤ queue_size) × InQueues queue_size nodes

-- The token counts what is in the nodes.
record Counts (window_size queue_size : ℕ) (nodes : List Flow) (token : FlowToken) : Type 0 where
  fcc_counts : token.fcc ≡ sent nodes
  backlog_counts : token.backlog ≡ waiting nodes
  in_window : sent nodes ≤ window_size
  in_queues : InQueues queue_size nodes

sent-append : (xs ys : List Flow) → sent (xs ++ ys) ≡ sent xs + sent ys
sent-append [] ys = omega arith
sent-append (x ∷ xs) ys = omega (arith, sent-append xs ys)

waiting-append : (xs ys : List Flow) → waiting (xs ++ ys) ≡ waiting xs + waiting ys
waiting-append [] ys = omega arith
waiting-append (x ∷ xs) ys = omega (arith, waiting-append xs ys)

all_queues_replaced :
    (q : ℕ) (xs ys : List Flow) (s t : Flow)
    → all_queues q (xs ++ s ∷ ys) ≡ all_queues q (xs ++ t ∷ ys)
all_queues_replaced q [] ys s t = refl
all_queues_replaced q (x ∷ xs) ys s t = ap (λ n. q + n) (all_queues_replaced q xs ys s t)

InQueues-replaced :
    (q : ℕ) (xs ys : List Flow) (s t : Flow)
    → InQueues q (xs ++ s ∷ ys)
    → t.my_pbl ≤ q
    → InQueues q (xs ++ t ∷ ys)
InQueues-replaced q [] ys s t h b = (b, h.1)
InQueues-replaced q (x ∷ xs) ys s t h b = (h.0, InQueues-replaced q xs ys s t h.1 b)

InQueues-waiting :
    (q : ℕ) (nodes : List Flow) → InQueues q nodes → waiting nodes ≤ all_queues q nodes
InQueues-waiting q [] h = omega arith
InQueues-waiting q (s ∷ nodes) h = omega (arith, h, InQueues-waiting q nodes h.1)

AllNew-Counts :
    (q : ℕ) (nodes : List Flow)
    → AllNew nodes
    → (sent nodes ≡ 0) × (waiting nodes ≡ 0) × InQueues q nodes
AllNew-Counts q [] h = (refl, refl, tt)
AllNew-Counts q (s ∷ nodes) h =
    let t = AllNew-Counts q nodes h.2 in
    (omega (arith, h.0, t.0), omega (arith, h.1, t.1), (omega (arith, h.1), t.2))

visited :
    (max_messages window_size q : ℕ) (before : List Flow) (s : Flow) (after : List Flow)
    (token : FlowToken) (backlog msgs seq : ℕ)
    → window_size < u32_mod
    → all_queues q (before ++ s ∷ after) < u32_mod
    → Counts window_size q (before ++ s ∷ after) token
    → backlog ≤ q
    → msgs ≤ (fcc_calculate max_messages window_size s token backlog).1
    → Counts window_size q
        (before
          ++ (fcc_token_update
              (fcc_calculate max_messages window_size s token backlog).0
              token
              msgs).0
            ∷ after)
        (record (fcc_token_update
          (fcc_calculate max_messages window_size s token backlog).0
          token
          msgs).1 { seq = seq })
unfolding fcc_token_update fcc_calculate
visited max_messages window_size q before s after token backlog msgs seq w r h b m =
    let t : Flow = record { my_trc = msgs; my_pbl = backlog; my_cbl = backlog } in
    let l =
      (allowed_lem max_messages window_size s token backlog w
        (omega (arith, h.fcc_counts, h.in_window))).1 in
    let x = sent-append before (s ∷ after) in
    let y = sent-append before (t ∷ after) in
    let u = waiting-append before (s ∷ after) in
    let v = waiting-append before (t ∷ after) in
    let k : InQueues q (before ++ t ∷ after) = InQueues-replaced q before after s t h.in_queues b in
    let n = InQueues-waiting q (before ++ t ∷ after) k in
    let o = InQueues-waiting q (before ++ s ∷ after) h.in_queues in
    let e = all_queues_replaced q before after s t in
    record {
      fcc_counts = omega (arith, h.fcc_counts, h.in_window, l, m, x, y, w);
      backlog_counts = omega (arith, h.backlog_counts, u, v, n, o, e, r);
      in_window = omega (arith, h.fcc_counts, h.in_window, l, m, x, y);
      in_queues = k;
    }

counted :
    (max_messages window_size q : ℕ) (nodes : List Flow) (token : FlowToken)
    → window_size < u32_mod
    → all_queues q nodes < u32_mod
    → Reach max_messages window_size q nodes token
    → Counts window_size q nodes token
counted max_messages window_size q nodes token w r (Reach.start ns last n f b) =
    let c = AllNew-Counts q ns n in
    record {
      fcc_counts = omega (arith, f, c.0);
      backlog_counts = omega (arith, b, c.1);
      in_window = omega (arith, c.0);
      in_queues = c.2;
    }
counted max_messages window_size q nodes token w r
      (Reach.visit before s after last backlog msgs seq ns next h b m e f) =
    let r' : all_queues q (before ++ s ∷ after) < u32_mod = omega (
      arith,
      r,
      ap (all_queues q) e,
      all_queues_replaced q before after s
          (fcc_token_update (fcc_calculate max_messages window_size s last backlog).0 last msgs).0,
    ) in
    rw (e, f)
      (visited max_messages window_size q before s after last backlog msgs seq w r'
        (counted max_messages window_size q (before ++ s ∷ after) last w r' h) b m)

-- At every time the token counts what the nodes of the ring have sent in their last turns and what waits at them,
-- and they have not sent more than window_size together: when no 32 bit number overflows, that is for queues whose
-- sizes add up to less than 2 ^ 32.
pub Reach-window :
    (max_messages window_size queue_size : ℕ) (nodes : List Flow) (token : FlowToken)
    → window_size < u32_mod
    → all_queues queue_size nodes < u32_mod
    → Reach max_messages window_size queue_size nodes token
    → (token.fcc ≡ sent nodes) × (token.backlog ≡ waiting nodes) × (sent nodes ≤ window_size)
Reach-window max_messages window_size queue_size nodes token w r h =
    let c = counted max_messages window_size queue_size nodes token w r h in
    (c.fcc_counts, c.backlog_counts, c.in_window)
