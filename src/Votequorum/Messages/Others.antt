-- ===== src/Votequorum/Messages/Others.antt =====
-- The messages of exec/votequorum.c that do not recalculate the quorum.
use corosync.Prelude.{ℕ, refl, Bool, true, false, List, arith, strncmp_eq, if◌then◌else◌}
use corosync.Votequorum.State.{State}
use corosync.Votequorum.Quorum.Waiting.{SameWait, SameWait-trans, SameWait-if}
use corosync.Votequorum.Messages.{
  qdevice_max_name_len, send_nodeinfo, send_set_qdevice_extra_info, qdevice_reconfigure_handler,
  register_own, mark_registered, record_name, qdevice_reg_handler, set_extra_info_handler,
}

pub SameWait-send_nodeinfo : (s : State) (nodeid : ℕ) → SameWait s (send_nodeinfo s nodeid)
unfolding send_nodeinfo
SameWait-send_nodeinfo s nodeid = ground arith

pub SameWait-send_extra_info :
    (s : State) (nodeid : ℕ) → SameWait s (send_set_qdevice_extra_info s nodeid)
unfolding send_set_qdevice_extra_info
SameWait-send_extra_info s nodeid = ground arith

pub SameWait-qdevice_reconfigure :
    (s : State) (oldname newname : List ℕ)
    → SameWait s (qdevice_reconfigure_handler s oldname newname)
unfolding qdevice_reconfigure_handler
SameWait-qdevice_reconfigure s oldname newname = ground arith

SameWait-mark_registered : (s : State) → SameWait s (mark_registered s)
unfolding mark_registered send_nodeinfo
SameWait-mark_registered s = ground arith

SameWait-record_name : (s : State) (name : List ℕ) → SameWait s (record_name s name)
unfolding record_name
SameWait-record_name s name = ground arith

SameWait-register_own : (s : State) (name : List ℕ) → SameWait s (register_own s name)
unfolding register_own
SameWait-register_own s name =
    let t = record_name s name in
    let named = SameWait-record_name s name in
    let u = if strncmp_eq qdevice_max_name_len name t.qdevice_name then mark_registered t else t in
    let same =
      SameWait-if (strncmp_eq qdevice_max_name_len name t.qdevice_name) s (mark_registered t) t
        (SameWait-trans s t (mark_registered t) named (SameWait-mark_registered t)) named in
    SameWait-trans s u (register_own s name) same (refl, refl, refl)

pub SameWait-qdevice_reg :
    (s : State) (operation : Bool) (name : List ℕ) (nodeid : ℕ)
    → SameWait s (qdevice_reg_handler s operation name nodeid)
unfolding qdevice_reg_handler record_name
SameWait-qdevice_reg s true name nodeid = ground (arith, SameWait-register_own s name)
SameWait-qdevice_reg s false name nodeid = ground arith

pub SameWait-set_extra_info :
    (s : State) (ei_size nodeid : ℕ) → SameWait s (set_extra_info_handler s ei_size nodeid)
unfolding set_extra_info_handler
SameWait-set_extra_info s ei_size nodeid = ground arith
