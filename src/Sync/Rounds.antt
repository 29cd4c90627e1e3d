-- ===== src/Sync/Rounds.antt =====
-- A round of exec/sync.c: the services one after the other, each up to its barrier.
use corosync.Prelude.{
  ℕ, suc, ◌+◌, ◌<◌, ◌≡◌, refl, ap, ◌∙◌, sym, Bool, true, false, ◌&&◌, inl, inr, Option, some, List,
  [], ◌∷◌, ◌++◌, length, length-append, arith, ◌==◌, eq→==, ne→==_false, if◌then◌else◌, Bool-cases,
  ◌>>=◌, is_empty,
}
use mathlib.Core.List.{append-nil, append_assoc}
use corosync.Sync.{
  Service, Sync, RingId, Processor, Output, ProcessState, SyncState, activate_service,
  process_service, completed, schedule, send_barrier, is_in, call, put, mark_received,
  barrier_reached, clear_processors, service_at, set_active, sync_process_enter,
  sync_barrier_handler, sync_barrier_enter, schedwrk_processor,
}

-- The barrier messages of a ring, from one sender after the other.
unfoldable pub barriers : (ℕ → Bool) → Sync → List ℕ → Option Sync
unfolding sync_barrier_handler
barriers is_known s [] = some s
barriers is_known s (x ∷ xs) =
    sync_barrier_handler is_known s x s.my_ring_id >>= λ t. barriers is_known t xs

-- For each service its process callback, which is done at once, and the barrier messages in the order given.
unfoldable pub round : (ℕ → Bool) → Sync → List (List ℕ) → Option Sync
unfolding schedwrk_processor barriers
round is_known s [] = some s
round is_known s (order ∷ orders) = schedwrk_processor is_known s 0 >>= λ r.
    barriers is_known r.0 order >>= λ t. round is_known t orders

-- The processors when the messages of `seen` have come.
abbrev pub received_from : List ℕ → List ℕ → List Processor
received_from seen [] = []
received_from seen (m ∷ ms) = record { nodeid = m; received = is_in m seen } ∷ received_from seen ms

abbrev pub all_in : List ℕ → List ℕ → Bool
all_in seen [] = true
all_in seen (m ∷ ms) = is_in m seen && all_in seen ms

-- The messages of an order complete the barrier, the last of them and no earlier one.
abbrev pub completes : List ℕ → List ℕ → List ℕ → Bool
completes members seen [] = false
completes members seen (x ∷ xs) =
    if all_in (x ∷ seen) members then is_empty xs else completes members (x ∷ seen) xs

abbrev pub AllComplete : List ℕ → List (List ℕ) → Type 0
AllComplete members [] = Unit
AllComplete members (order ∷ orders) =
    (completes members [] order ≡ true) × AllComplete members orders

pub mark_received-received_from :
    (x : ℕ) (seen members : List ℕ)
    → mark_received x (received_from seen members) ≡ received_from (x ∷ seen) members
unfolding mark_received is_in
mark_received-received_from x seen [] = refl
mark_received-received_from x seen (m ∷ ms) = elim (Bool-cases (m == x)) [
  | inl t ↦ rw (t, mark_received-received_from x seen ms) refl
  | inr t ↦ rw (t, mark_received-received_from x seen ms) refl
]

pub barrier_reached-received_from :
    (seen members : List ℕ) → barrier_reached (received_from seen members) ≡ all_in seen members
unfolding barrier_reached
barrier_reached-received_from seen [] = refl
barrier_reached-received_from seen (m ∷ ms) =
    ap (λ b. is_in m seen && b) (barrier_reached-received_from seen ms)

pub clear_processors-received_from :
    (seen members : List ℕ)
    → clear_processors (received_from seen members) ≡ received_from [] members
unfolding clear_processors is_in
clear_processors-received_from seen [] = refl
clear_processors-received_from seen (m ∷ ms) =
    ap (λ ps. record { nodeid = m; received = false } ∷ ps) (clear_processors-received_from seen ms)

abbrev active : Service → Service
active e = record e { state = ProcessState.activate }

service_at_middle :
    (done es : List Service) (e : Service) → service_at (done ++ e ∷ es) (length done) ≡ some e
unfolding service_at
service_at_middle [] es e = refl
service_at_middle (d ∷ done) es e = service_at_middle done es e

set_active_middle :
    (done es : List Service) (e : Service)
    → set_active (done ++ e ∷ es) (length done) ≡ done ++ active e ∷ es
unfolding set_active
set_active_middle [] es e = refl
set_active_middle (d ∷ done) es e = ap (λ xs. d ∷ xs) (set_active_middle done es e)

-- sync_process_enter when there are services.
abbrev pub entering : Sync → Sync
entering s =
    put
      (record s {
        my_state = SyncState.sync_process;
        my_processor_list = clear_processors s.my_processor_list;
      })
      (schedule ∷ [])

pub enters : (s : Sync) → 0 < length s.my_service_list → sync_process_enter s ≡ entering s
unfolding sync_process_enter
enters s h = rw (ne→==_false (length s.my_service_list) 0 (λ z. absurd (omega (arith, z, h)))) refl

pub ended : (xs : List ℕ) → is_empty xs ≡ true → xs ≡ []
ended [] h = refl
ended (x ∷ xs) h = cc

regroup :
    (o p : List Output) (b : Output) (a e c : List Output)
    → o ++ p ++ (b ∷ []) ++ a ++ e ++ c ≡ o ++ (p ++ (b ∷ (a ++ (e ++ c))))
regroup o p b a e c = simp append_assoc

at_end :
    (done es : List Service) (e : Service)
    → (length (done ++ e ∷ es) == length done + 1) ≡ (length es == 0)
at_end done es e = ground (arith, length-append done (e ∷ es))

-- What is called behind the last service, and behind another one.
abbrev pub ending : List Service → List Output
ending [] = completed ∷ []
ending (e ∷ es) = schedule ∷ []

abbrev pub AllProcessing : List Service → Type 0
AllProcessing [] = Unit
AllProcessing (e ∷ es) = (e.state ≡ ProcessState.process) × AllProcessing es

-- What is called in a round.
abbrev pub calls : (ℕ → Bool) → RingId → List Service → List Output
calls is_known ring [] = []
calls is_known ring (e ∷ es) =
    call is_known e process_service
    ++ (send_barrier ring
        ∷ (call is_known e activate_service ++ (ending es ++ calls is_known ring es)))

module _ (is_known : ℕ → Bool) (members : List ℕ) where
  -- The services `done` have been activated, `rest` are to come, and messages of `seen` have come for the barrier
  -- of the next of them.
  pub record InPhase (seen : List ℕ) (done rest : List Service) (s : Sync) : Type 0 where
    pub processors : s.my_processor_list ≡ received_from seen members
    pub services : s.my_service_list ≡ done ++ rest
    pub next : s.my_processing_idx ≡ length done

  handler_waits :
      (seen : List ℕ) (done rest : List Service) (s : Sync) (x : ℕ)
      → InPhase seen done rest s
      → all_in (x ∷ seen) members ≡ false
      → sync_barrier_handler is_known s x s.my_ring_id
        ≡ some (record s { my_processor_list = received_from (x ∷ seen) members })
  unfolding sync_barrier_handler
  handler_waits seen done rest s x h n =
      rw
        (
          eq→== s.my_ring_id.rep s.my_ring_id.rep refl,
          eq→== s.my_ring_id.seq s.my_ring_id.seq refl,
          h.processors,
          mark_received-received_from x seen members,
          barrier_reached-received_from (x ∷ seen) members,
          n,
        )
        refl

  -- What the handler leaves at the last message of a barrier.
  abbrev committed : Sync → List ℕ → List Service → Service → List Service → Sync
  committed s seen done e es =
      put
        (record s {
          my_processor_list = received_from seen members;
          my_service_list = done ++ active e ∷ es;
          my_processing_idx = length done + 1;
        })
        (call is_known e activate_service)

  handler_commits :
      (seen : List ℕ) (done es : List Service) (e : Service) (s : Sync) (x : ℕ)
      → InPhase seen done (e ∷ es) s
      → all_in (x ∷ seen) members ≡ true
      → sync_barrier_handler is_known s x s.my_ring_id
        ≡ some (
            if length es == 0
            then put (committed s (x ∷ seen) done e es) (completed ∷ [])
            else sync_process_enter (committed s (x ∷ seen) done e es))
  unfolding sync_barrier_handler sync_process_enter
  handler_commits seen done es e s x h n =
      rw
        (
          eq→== s.my_ring_id.rep s.my_ring_id.rep refl,
          eq→== s.my_ring_id.seq s.my_ring_id.seq refl,
          h.processors,
          mark_received-received_from x seen members,
          barrier_reached-received_from (x ∷ seen) members,
          n,
          h.services,
          h.next,
          service_at_middle done es e,
          set_active_middle done es e,
          at_end done es e,
        )
        refl

  abbrev pub Continues : List Service → List Service → Sync → Type 0
  Continues done [] t = Unit
  Continues done (e ∷ es) t = InPhase [] done (e ∷ es) t

  -- The state behind a barrier.
  record Passed (done es : List Service) (e : Service) (s : Sync) (r : Option Sync) : Type 0 where
    state : Sync
    result : r ≡ some state
    called : state.outputs ≡ s.outputs ++ call is_known e activate_service ++ ending es
    ring : state.my_ring_id ≡ s.my_ring_id
    continues : Continues (done ++ active e ∷ []) es state

  last_message :
      (seen : List ℕ) (done es : List Service) (e : Service) (s : Sync) (x : ℕ)
      → InPhase seen done (e ∷ es) s
      → all_in (x ∷ seen) members ≡ true
      → Passed done es e s (sync_barrier_handler is_known s x s.my_ring_id)
  last_message seen done [] e s x h n = record {
    state = put (committed s (x ∷ seen) done e []) (completed ∷ []);
    result = handler_commits seen done [] e s x h n;
    called = refl;
    ring = refl;
    continues = tt;
  }
  last_message seen done (f ∷ es) e s x h n = record {
    state = entering (committed s (x ∷ seen) done e (f ∷ es));
    result =
        handler_commits seen done (f ∷ es) e s x h n
        ∙ rw (ne→==_false (suc (length es)) 0 (λ z. absurd (omega (arith, z)))) (
            ap some (
              enters (committed s (x ∷ seen) done e (f ∷ es))
                (omega (arith, length-append {0} done (active e ∷ f ∷ es)))));
    called = refl;
    ring = refl;
    continues = record {
      processors = clear_processors-received_from (x ∷ seen) members;
      services = sym (append_assoc done (active e ∷ []) (f ∷ es));
      next = omega (arith, length-append {0} done (active e ∷ []));
    };
  }

  barriers_pass :
      (seen order : List ℕ) (done es : List Service) (e : Service) (s : Sync)
      → InPhase seen done (e ∷ es) s
      → completes members seen order ≡ true
      → Passed done es e s (barriers is_known s order)
  unfolding barriers
  barriers_pass seen [] done es e s h c = absurd (ground (arith, c))
  barriers_pass seen (x ∷ xs) done es e s h c = elim (Bool-cases (all_in (x ∷ seen) members)) [
    | inl t ↦
        (let p = last_message seen done es e s x h t in
          record {
            state = p.state;
            result = rw (ended xs (rw t at c), p.result) refl;
            called = p.called;
            ring = p.ring;
            continues = p.continues;
          })
    | inr t ↦
        (let p =
            barriers_pass (x ∷ seen) xs done es e
              (record s { my_processor_list = received_from (x ∷ seen) members })
              record { processors = refl; services = h.services; next = h.next } (rw t at c) in
          record {
            state = p.state;
            result = rw (handler_waits seen done (e ∷ es) s x h t) p.result;
            called = p.called;
            ring = p.ring;
            continues = p.continues;
          })
  ]

  schedwrk_sends :
      (done es : List Service) (e : Service) (s : Sync)
      → InPhase [] done (e ∷ es) s
      → e.state ≡ ProcessState.process
      → schedwrk_processor is_known s 0
        ≡ some (sync_barrier_enter (put s (call is_known e process_service)), false)
  unfolding schedwrk_processor
  schedwrk_sends done es e s h p =
      rw (h.services, h.next, service_at_middle done es e, p) (ground arith)

  pub round-calls :
      (orders : List (List ℕ)) (done rest : List Service) (s : Sync)
      → Continues done rest s
      → AllProcessing rest
      → AllComplete members orders
      → length orders ≡ length rest
      → (t : Sync) × (round is_known s orders ≡ some t)
        × (t.outputs ≡ s.outputs ++ calls is_known s.my_ring_id rest)
  unfolding round
  round-calls [] done [] s h p c l = (s, refl, sym (append-nil s.outputs))
  round-calls [] done (e ∷ es) s h p c l = absurd (omega (arith, l))
  round-calls (order ∷ orders) done [] s h p c l = absurd (omega (arith, l))
  round-calls (order ∷ orders) done (e ∷ es) s h p c l =
      let u = sync_barrier_enter (put s (call is_known e process_service)) in
      let b =
        barriers_pass [] order done es e u
          record { processors = h.processors; services = h.services; next = h.next } c.0 in
      let q =
        round-calls orders (done ++ active e ∷ []) es b.state b.continues p.1 c.1
          (omega (arith, l)) in
      (
        q.0,
        rw (schedwrk_sends done es e s h p.0, b.result) q.1,
        q.2
            ∙ rw (b.called, b.ring)
                (regroup s.outputs (call is_known e process_service) (send_barrier s.my_ring_id)
                  (call is_known e activate_service) (ending es) (calls is_known s.my_ring_id es)),
      )
