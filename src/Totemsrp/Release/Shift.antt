-- ===== src/Totemsrp/Release/Shift.antt =====
-- What messages_free of exec/totemsrp.c releases and what it keeps.
use corosync.Prelude.{
  ℕ, zero, suc, ◌+◌, ◌-◌, ◌≤◌, ◌<◌, ◌≡◌, refl, ap, ◌∙◌, sym, subst, Bool, true, false, Option, none,
  some, List, [], ◌∷◌, ◌++◌, inl, inr, Bool-cases, arith, ltb, lt→ltb, ltb→lt, if◌then◌else◌, add32,
  sub32, u32_mod,
}
use mathlib.Core.List.{append-nil, append_assoc}
use corosync.SortQueue.{Sq, lt_compare, items_release}
use corosync.SortQueue.Seq.{lt_compare_near}
use corosync.SortQueue.Ring.{IsValid, offset}
use corosync.SortQueue.View.{view, item_get-view, items_release-view, items_release_keeps}
use corosync.Totemsrp.Release.{Holding, at_most, release_to, release_messages, messages_free}

sum_zero : (i : ℕ) → i ≡ i + 0
sum_zero i = omega arith

sum_suc : (i n : ℕ) → suc i + n ≡ i + suc n
sum_suc i n = omega arith

next_number : (last i : ℕ) → add32 (add32 last i) 1 ≡ add32 last (suc i)
next_number last i = omega arith

further : (d n o : ℕ) → o ≡ 0 → d + n + suc o ≡ d + suc n
further d n o z = omega (arith, z)

not_before : (a b : ℕ) → ltb a b ≡ false → b ≤ a
not_before a b t = ground (arith, t)

behind : (d n size : ℕ) → ltb (d + n) size ≡ false → ltb (d + suc n) size ≡ false
behind d n size t = ground (arith, t)

module _ {A : Type 0} where
  unmoved :
      (sq : Sq A) (d : ℕ)
      → d < sq.size
      → view sq d ≡ (if ltb (d + 0) sq.size then view sq (d + 0) else none)
  unmoved sq d p = rw (lt→ltb (d + 0) sq.size (omega (arith, p))) (ap (view sq) (omega arith))

  one_more :
      (sq : Sq A) (seq d n : ℕ)
      → IsValid sq
      → seq < u32_mod
      → offset sq seq < sq.size
      → offset sq seq ≡ 0
      → (items_release sq seq).size ≡ sq.size
      → d < sq.size
      → (if ltb (d + n) (items_release sq seq).size
          then view (items_release sq seq) (d + n)
          else none)
        ≡ (if ltb (d + suc n) sq.size then view sq (d + suc n) else none)
  one_more sq seq d n v u w z size p =
      let next = view (items_release sq seq) (d + n) in
      ap (λ m. if ltb (d + n) m then next else none) size
      ∙ elim (Bool-cases (ltb (d + n) sq.size)) [
        | inl t ↦
            ap (λ b. if b then next else none) t
            ∙ (items_release-view sq seq (d + n) v u w (ltb→lt _ _ t)).2
            ∙ ap (λ m. if ltb m sq.size then view sq m else none) (further d n (offset sq seq) z)
        | inr t ↦
            ap (λ b. if b then next else none) t
            ∙ sym (ap (λ b. if b then view sq (d + suc n) else none) (behind d n sq.size t))
      ]

  -- The queue without its first `n` places: what is behind them keeps its number.
  pub record Shifted (sq : Sq A) (head n : ℕ) (t : Sq A) : Type 0 where
    pub valid : IsValid t
    pub head_at : t.head_seqid ≡ head
    pub same_size : t.size ≡ sq.size
    pub places :
        (d : ℕ) → d < sq.size → view t d ≡ (if ltb (d + n) sq.size then view sq (d + n) else none)

  abbrev with_message : Option A → List A → List A
  with_message none xs = xs
  with_message (some x) xs = x ∷ xs

  -- The messages in the `n` places from `d` on.
  abbrev pub messages_in : Sq A → ℕ → ℕ → List A
  messages_in sq d zero = []
  messages_in sq d (suc n) = with_message (view sq d) (messages_in sq (suc d) n)

  with_message-append :
      (o : Option A) (released rest : List A)
      → (elim o [ none ↦ released | some x ↦ released ++ x ∷ [] ]) ++ rest
        ≡ released ++ with_message o rest
  with_message-append none released rest = refl
  with_message-append (some x) released rest = append_assoc released (x ∷ []) rest

  later_messages :
      (sq t : Sq A) (d n : ℕ)
      → ((m : ℕ) → m < d + n → view t m ≡ view sq (suc m))
      → messages_in t d n ≡ messages_in sq (suc d) n
  later_messages sq t d zero h = refl
  later_messages sq t d (suc n) h =
      ap (λ o. with_message o (messages_in t (suc d) n)) (h d (omega arith))
      ∙ ap (with_message (view sq (suc d)))
          (later_messages sq t (suc d) n (λ m p. h m (omega (arith, p))))

  record Released (sq : Sq A) (head n : ℕ) (before : List A) (r : Option (Sq A × List A))
      : Type 0 where
    state : Sq A
    out : List A
    result : r ≡ some (state, out)
    shifted : Shifted sq head n state
    buffers : out ≡ before ++ messages_in sq 0 n

  moved_on :
      (m o : ℕ) (sq : Sq A)
      → o ≡ 0
      → suc m < sq.size
      → (if ltb (m + suc o) sq.size then view sq (m + suc o) else none) ≡ view sq (suc m)
  moved_on m o sq z p =
      let at : m + suc o ≡ suc m = omega (arith, z) in
      ap (λ j. if ltb j sq.size then view sq j else none) at
      ∙ ap (λ b. if b then view sq (suc m) else none) (lt→ltb (suc m) sq.size p)

  release_messages-Released :
      (n i last : ℕ) (sq : Sq A) (released : List A)
      → IsValid sq
      → sq.head_seqid ≡ add32 last i
      → n < sq.size
      → Released sq (add32 last (i + n)) n released (release_messages sq released last n i)
  unfolding release_messages
  release_messages-Released zero i last sq released v h room = record {
    state = sq;
    out = released;
    result = refl;
    shifted = record {
      valid = v;
      head_at = h ∙ ap (add32 last) (sum_zero i);
      same_size = refl;
      places = λ d p. unmoved sq d p;
    };
    buffers = sym (append-nil released);
  }
  release_messages-Released (suc n) i last sq released v h room =
      let seq = add32 last i in
      let z : offset sq seq ≡ 0 = omega (arith, h, v.word) in
      let w : offset sq seq < sq.size = omega (arith, z, v.positive) in
      let g = item_get-view sq seq v (omega arith) w in
      let first = items_release-view sq seq 0 v (omega arith) w v.positive in
      let size = items_release_keeps sq seq in
      let out : List A = elim (view sq (offset sq seq)) [
        | none ↦ released
        | some x ↦ released ++ x ∷ []
      ] in
      let rest =
        release_messages-Released n (suc i) last (items_release sq seq) out first.0
          (first.1 ∙ next_number last i) (omega (arith, room, size)) in
      let moved : (m : ℕ) → m < 0 + n → view (items_release sq seq) m ≡ view sq (suc m) = λ m p.
        (items_release-view sq seq m v (omega arith) w (omega (arith, p, room))).2
        ∙ moved_on m (offset sq seq) sq z (omega (arith, p, room)) in
      record {
        state = rest.state;
        out = rest.out;
        result = rw g rest.result;
        shifted = record {
          valid = rest.shifted.valid;
          head_at = rest.shifted.head_at ∙ ap (add32 last) (sum_suc i n);
          same_size = rest.shifted.same_size ∙ size;
          places = λ d p.
              rest.shifted.places d (omega (arith, p, size))
              ∙ one_more sq seq d n v (omega arith) w z size p;
        };
        buffers =
            rest.buffers
            ∙ ap (λ l. out ++ l) (later_messages sq (items_release sq seq) 0 n moved)
            ∙ with_message-append (view sq (offset sq seq)) released (messages_in sq 1 n)
            ∙ ap (λ o. released ++ with_message (view sq o) (messages_in sq 1 n)) z;
      }

abbrev pub lesser : ℕ → ℕ → ℕ
lesser a b = if ltb a b then a else b

-- Positions in a range of 0x8000 are compared as their numbers are, also where these wrap.
near_compare :
    (base lo a b : ℕ)
    → lo ≤ a
    → a < lo + 0x8000
    → lo ≤ b
    → b < lo + 0x8000
    → lt_compare (add32 base a) (add32 base b) ≡ ltb a b
near_compare base lo a b p q u w =
    let at : add32 (add32 base lo) (a - lo) ≡ add32 base a = omega (arith, p) in
    let bt : add32 (add32 base lo) (b - lo) ≡ add32 base b = omega (arith, u) in
    let same : ltb (a - lo) (b - lo) ≡ ltb a b = ground (arith, p, u) in
    ap (lt_compare (add32 base a)) (sym bt)
    ∙ ap (λ x. lt_compare x (add32 (add32 base lo) (b - lo))) (sym at)
    ∙ lt_compare_near (add32 base lo) (a - lo) (b - lo) (omega arith) (omega (arith, p, q))
        (omega (arith, u, w))
    ∙ same

chosen :
    (t : Bool) (base a b : ℕ)
    → (if t then add32 base a else add32 base b) ≡ add32 base (if t then a else b)
chosen true base a b = refl
chosen false base a b = refl

at_most-lesser :
    (base lo a b : ℕ)
    → lo ≤ a
    → a < lo + 0x8000
    → lo ≤ b
    → b < lo + 0x8000
    → at_most (add32 base a) (add32 base b) ≡ add32 base (lesser a b)
at_most-lesser base lo a b p q u w =
    rw (near_compare base lo a b p q u w) (chosen (ltb a b) base a b)

-- Where a node stands: message `d` has the number add32 base d; those up to `gone` are released, and the window of
-- the sort queue begins behind them. The token's aru is that of message `a`, the aru of the turn before that of `b`, and
-- `c` is the last message delivered, which is in the window.
pub record Stands {A : Type 0} (s : Holding A) (token_aru base lo gone a b c : ℕ) : Type 0 where
  pub valid : IsValid s.sort_queue
  pub head_at : s.sort_queue.head_seqid ≡ add32 base (suc gone)
  pub released_at : s.last_released ≡ add32 base gone
  pub token_at : token_aru ≡ add32 base a
  pub last_at : s.my_last_aru ≡ add32 base b
  pub delivered_at : s.my_high_delivered ≡ add32 base c
  pub lo-gone : lo ≤ gone
  pub gone-lo : gone < lo + 0x8000
  pub lo-token : lo ≤ a
  pub token-lo : a < lo + 0x8000
  pub lo-last : lo ≤ b
  pub last-lo : b < lo + 0x8000
  pub lo-delivered : lo ≤ c
  pub delivered-lo : c < lo + 0x8000
  pub in_window : c < gone + s.sort_queue.size
  pub in_queue : s.sort_queue.size ≤ 16384

-- How many messages are released.
abbrev pub releases : ℕ → ℕ → ℕ → ℕ → ℕ
releases gone a b c = lesser c (lesser b a) - gone

in_range_of :
    (lo a b : ℕ)
    → lo ≤ a
    → a < lo + 0x8000
    → lo ≤ b
    → b < lo + 0x8000
    → (lo ≤ lesser a b) × (lesser a b < lo + 0x8000)
in_range_of lo a b p q u w = ground (arith, p, q, u, w)

no_messages :
    {A : Type 0} (s : Holding A) (base gone : ℕ)
    → IsValid s.sort_queue
    → s.sort_queue.head_seqid ≡ add32 base (suc gone)
    → Shifted s.sort_queue (add32 base (suc (gone + 0))) 0 s.sort_queue
no_messages s base gone v h = record {
  valid = v;
  head_at = h ∙ ap (λ n. add32 base (suc n)) (sum_zero gone);
  same_size = refl;
  places = λ d p. unmoved s.sort_queue d p;
}

messages_free-some :
    {A : Type 0} (s : Holding A) (token_aru n : ℕ) (state : Sq A) (out : List A)
    → lt_compare (release_to s token_aru) s.last_released ≡ false
    → sub32 (release_to s token_aru) s.last_released ≡ n
    → n < 16384
    → release_messages s.sort_queue s.released s.last_released n 1 ≡ some (state, out)
    → messages_free s token_aru
      ≡ some
          (record s { sort_queue = state; released = out; last_released = add32 s.last_released n })
unfolding messages_free
messages_free-some s token_aru n state out ahead range room r =
    rw (ahead, range, lt→ltb n 16384 room, r) refl

-- messages_free gives up the messages up to the least of the token's aru, that of the turn before, and the last
-- message delivered, or none when that least one is released already; the buffers that it releases are those of these
-- messages, each later message keeps its number in the sort queue, and the window of the queue begins behind what is
-- released. This is where the four numbers are in a range of 0x8000, which may wrap and in which the arus may be behind what
-- is released or in front of the window; the assertion holds because the last message delivered is in the window of the
-- sort queue, which has at most QUEUE_RTR_ITEMS_SIZE_MAX places.
pub messages_free_lem :
    {A : Type 0} (s : Holding A) (token_aru base lo gone a b c : ℕ)
    → Stands s token_aru base lo gone a b c
    → (t : Holding A) × (messages_free s token_aru ≡ some t)
      × (t.last_released ≡ add32 base (gone + releases gone a b c))
      × (t.released ≡ s.released ++ messages_in s.sort_queue 0 (releases gone a b c))
      × Shifted s.sort_queue
          (add32 base (suc (gone + releases gone a b c)))
          (releases gone a b c)
          t.sort_queue
unfolding messages_free
messages_free_lem s token_aru base lo gone a b c h =
    let l = s.last_released in
    let m = lesser b a in
    let to = lesser c m in
    let n = to - gone in
    let (m_lo, m_hi) = in_range_of lo b a h.lo-last h.last-lo h.lo-token h.token-lo in
    let (to_lo, to_hi) = in_range_of lo c m h.lo-delivered h.delivered-lo m_lo m_hi in
    let least : to ≤ c = ground arith in
    let at : release_to s token_aru ≡ add32 base to =
      rw (h.token_at, h.last_at, h.delivered_at)
        (ap (at_most (add32 base c))
            (at_most-lesser base lo b a h.lo-last h.last-lo h.lo-token h.token-lo)
          ∙ at_most-lesser base lo c m h.lo-delivered h.delivered-lo m_lo m_hi) in
    let compared : lt_compare (release_to s token_aru) l ≡ ltb to gone =
      ap (λ x. lt_compare x l) at
      ∙ ap (lt_compare (add32 base to)) h.released_at
      ∙ near_compare base lo to gone to_lo to_hi h.lo-gone h.gone-lo in
    elim (Bool-cases (ltb to gone)) [
      | inl before ↦
          (let z : n ≡ 0 = omega (arith, ltb→lt to gone before) in
            (
              s,
              rw (compared ∙ before) refl,
              h.released_at ∙ ap (add32 base) (omega (arith, z)),
              sym (append-nil s.released)
                  ∙ ap (λ n. s.released ++ messages_in s.sort_queue 0 n) (sym z),
              subst (λ n. Shifted s.sort_queue (add32 base (suc (gone + n))) n s.sort_queue) (sym z)
                  (no_messages s base gone h.valid h.head_at),
            ))
      | inr ahead ↦
          (let le : gone ≤ to = not_before to gone ahead in
            let room : n < s.sort_queue.size =
              omega (arith, le, least, h.in_window, h.valid.positive) in
            let range : sub32 (release_to s token_aru) l ≡ n =
              omega (arith, at, h.released_at, le, room, h.in_queue) in
            let r =
              release_messages-Released n 1 l s.sort_queue s.released h.valid
                (omega (arith, h.head_at, h.released_at)) room in
            (
              record s { sort_queue = r.state; released = r.out; last_released = add32 l n },
              messages_free-some s token_aru n r.state r.out (compared ∙ ahead) range
                  (omega (arith, room, h.in_queue)) r.result,
              omega (arith, h.released_at),
              r.buffers,
              subst (λ x. Shifted s.sort_queue x n r.state) (omega (arith, h.released_at))
                  r.shifted,
            ))
    ]
