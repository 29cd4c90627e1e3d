-- ===== src/Totemsrp/Membership/Events.antt =====
-- What happens to a node of exec/totemsrp.c while the membership is formed, in any order.
use corosync.Prelude.{
  ◌≡◌, ◌∙◌, refl, sym, ap, subst, Bool, true, not, ◌&&◌, ◌==◌, Option, some, [], ◌∷◌, arith, ◌>>=◌,
}
use mathlib.Core.Option.{some-injective}
use corosync.Totemsrp.Sets.{contains, memb_set_merge}
use corosync.Totemsrp.Membership.{
  Instance, MembJoin, MembState, operational, gather, commit, recovery, memb_state_gather_enter,
  memb_state_consensus_timeout_expired, memb_join_process,
}
use corosync.Totemsrp.Membership.Own.{
  OwnIsValid, is_gather, memb_state_gather_enter-OwnIsValid, consensus_timeout-OwnIsValid,
}
use corosync.Totemsrp.Membership.Join.{Succeeds, memb_join_process-OwnIsValid}

-- timer_function_orf_token_timeout. In the RECOVERY state memb_recovery_state_token_loss also restores
-- two sequence numbers of the old ring, which are left out.
unfoldable pub orf_token_timeout : Instance → Option Instance
orf_token_timeout s = elim s.memb_state [
  | gather ↦ memb_state_consensus_timeout_expired s >>= λ t. some (memb_state_gather_enter t)
  | recovery ↦ some (record (memb_state_gather_enter s) { orf_token_discard = true })
  | _ ↦ some (memb_state_gather_enter s)
]

-- The branch of message_handler_orf_token for a node that fails to receive.
unfoldable pub fail_to_receive : Instance → Instance
fail_to_receive s = memb_state_gather_enter (record s {
  failed_to_recv = true;
  my_failed_list = memb_set_merge (s.my_id ∷ []) s.my_failed_list;
})

-- A join message, the two timeouts, and the token that tells that messages do not arrive.
pub data Event : Type 0 where
  join : MembJoin → Event
  consensus_timeout token_timeout receive_failure : Event

-- What an event does; `none` is a failed assertion.
unfoldable pub step : Instance → Event → Option Instance
step s (join m) = memb_join_process s m
step s consensus_timeout = memb_state_consensus_timeout_expired s
step s token_timeout = orf_token_timeout s
step s receive_failure = some (fail_to_receive s)

-- A join message that comes from the node itself does not have it in its failed list, and the consensus timer runs in
-- the GATHER state only. A node that has failed to receive sends such messages, and a network that loops them back
-- is not covered.
unfoldable pub is_admissible : Instance → Event → Bool
is_admissible s (join m) = not (contains s.my_id m.failed_list && s.my_id == m.system_from)
is_admissible s consensus_timeout = is_gather s.memb_state
is_admissible s _ = true

-- The nodes that a node becomes by admissible events.
pub data Reach (s : Instance) : Instance → Type 0 where
  here : Reach s s
  next :
      {t u : Instance}
      → Reach s t
      → (e : Event) → is_admissible t e ≡ true
      → step t e ≡ some u
      → Reach s u

discarding : (s : Instance) → OwnIsValid s → OwnIsValid (record s { orf_token_discard = true })
discarding s v = record { in_proc = v.in_proc; alive = v.alive; voted = v.voted }

orf_token_timeout-Succeeds : (s : Instance) → OwnIsValid s → Succeeds (orf_token_timeout s)
unfolding orf_token_timeout
orf_token_timeout-Succeeds s v = in_state s.memb_state refl
  where
    in_state :
        (state : MembState)
        → s.memb_state ≡ state
        → Succeeds (elim state [
          | gather ↦
              memb_state_consensus_timeout_expired s >>= λ t. some (memb_state_gather_enter t)
          | recovery ↦ some (record (memb_state_gather_enter s) { orf_token_discard = true })
          | _ ↦ some (memb_state_gather_enter s)
        ])
    in_state operational e =
        (memb_state_gather_enter s, refl, memb_state_gather_enter-OwnIsValid s v.alive)
    in_state gather e =
        let (t, p, w) = consensus_timeout-OwnIsValid s v (ap is_gather e) in
        (memb_state_gather_enter t, rw p refl, memb_state_gather_enter-OwnIsValid t w.alive)
    in_state commit e =
        (memb_state_gather_enter s, refl, memb_state_gather_enter-OwnIsValid s v.alive)
    in_state recovery e = (
      record (memb_state_gather_enter s) { orf_token_discard = true },
      refl,
      discarding (memb_state_gather_enter s) (memb_state_gather_enter-OwnIsValid s v.alive),
    )

step-Succeeds :
    (s : Instance) (e : Event) → is_admissible s e ≡ true → OwnIsValid s → Succeeds (step s e)
unfolding step is_admissible fail_to_receive
step-Succeeds s (join m) a v = memb_join_process-OwnIsValid s m (ground arith) v
step-Succeeds s consensus_timeout a v = consensus_timeout-OwnIsValid s v a
step-Succeeds s token_timeout a v = orf_token_timeout-Succeeds s v
step-Succeeds s receive_failure a v =
    (fail_to_receive s, refl, memb_state_gather_enter-OwnIsValid _ refl)

Reach-OwnIsValid : {s t : Instance} → OwnIsValid s → Reach s t → OwnIsValid t
Reach-OwnIsValid v here = v
Reach-OwnIsValid v (next {t = t} {u = u} r e a q) =
    let (w, p, k) = step-Succeeds t e a (Reach-OwnIsValid v r) in
    subst OwnIsValid (some-injective w u (sym p ∙ q)) k

-- From a node that is valid in itself, no sequence of admissible events comes to one that is not, and the
-- next admissible event never fails an assertion.
pub Reach-Succeeds :
    (s t : Instance) (e : Event)
    → OwnIsValid s
    → Reach s t
    → is_admissible t e ≡ true
    → OwnIsValid t × ((u : Instance) × (step t e ≡ some u))
Reach-Succeeds s t e v r a =
    let k = Reach-OwnIsValid v r in let (u, p, _) = step-Succeeds t e a k in (k, (u, p))
