-- ===== src/Userspace/Buffer.antt =====
-- internal/forwarder/userspace/pipeline.go and bar_delay.go: packets that wait, and the notification
-- that they do.
pub mod Queue
pub mod Release
pub mod Transition
pub mod Notice
use go_upf.Base.{
  ℕ, ◌-◌, Bool, true, false, not, ◌&&◌, Option, none, some, List, [], ◌∷◌, ◌++◌, length, drop,
  Assoc, lookup, insert, delete, ltb, ◌==◌, if◌then◌else◌, is_some, nat_eq, nat_pair_eq, bytes_eq,
  Bytes,
}
use go_upf.Report.{SessReport, DldReport, dld, act_buff, act_drop, act_forw, act_nocp}
use go_upf.Userspace.Rule.{PdrRule, FarRule, SessionState}
use go_upf.Userspace.Binding.{PdrBinding, RuntimeSnapshot, bindings_at, build_runtime_snapshot}
use go_upf.Userspace.Forward.{
  PacketOutcome, buffer_packet_action, raw_ip, buffered_packet_limit, ddn_delay,
  forward_buffered_payload,
}
use go_upf.Userspace.State.{
  Userspace, PendingDdn, store_session, publish_outcome, emit_report, cancel_pending_ddn,
}

-- `append`, then the last packets up to the limit; 0 is no limit.
unfoldable pub enqueue : ℕ → List Bytes → Bytes → List Bytes
enqueue limit queue payload =
    let longer = queue ++ payload ∷ [] in
    if ltb 0 limit && ltb limit (length longer) then drop (length longer - limit) longer else longer

abbrev pub buffer_at : ℕ → Assoc ℕ (List Bytes) → List Bytes
buffer_at id m = or_empty (lookup id m)
  where
    or_empty : Option (List Bytes) → List Bytes
    or_empty none = []
    or_empty (some q) = q

abbrev pub downlink_data : ℕ → ℕ → ℕ → Bytes → SessReport
downlink_data seid pdrid action payload = record {
  seid = seid;
  reports = dld (record { pdrid = pdrid; action = action; buf_pkt = payload }) ∷ [];
}

-- The outcome of `bufferPacket`.
abbrev pub buffered_outcome : PdrBinding → PacketOutcome
buffered_outcome b = record {
  seid = b.seid;
  pdrid = b.pdr.id;
  action = buffer_packet_action;
  format = raw_ip;
  payload = [];
  peer = none;
}

-- The loop over the candidates.
unfoldable pub candidate_of : ℕ → ℕ → List PdrBinding → Option PdrBinding
candidate_of seid pdrid [] = none
candidate_of seid pdrid (c ∷ cs) =
    let rest = candidate_of seid pdrid cs in
    if c.seid == seid && c.pdr.id == pdrid then some c else rest

abbrev first_binding : List PdrBinding → Option PdrBinding
first_binding [] = none
first_binding (c ∷ cs) = some c

abbrev pub uses_far : ℕ → PdrRule → Bool
uses_far id p = elim p.far_id [ none ↦ false | some f ↦ f == id ]

module _ {F : Type 0} where
  abbrev pub notify_now : PdrBinding → FarRule → Bytes → Userspace F → Userspace F
  notify_now b f payload u =
      if ddn_delay b == 0
      then emit_report (downlink_data b.seid b.pdr.id f.apply_action payload) u
      else record u {
        pending_ddn =
            insert (b.seid, b.pdr.id) (record { payload = payload; action = f.apply_action })
              u.pending_ddn;
      }

  -- `scheduleBufferedNotification`: a notification that is pending keeps its timer and gets the new
  -- packet.
  unfoldable pub schedule_buffered_notification : PdrBinding → Bytes → Userspace F → Userspace F
  unfolding ddn_delay emit_report
  schedule_buffered_notification b payload u = elim b.far [
    | none ↦ u
    | some f ↦ (if act_nocp f.apply_action then notify_now b f payload u else u)
  ]

  -- `fireBufferedNotification`, which the timer of a pending notification calls.
  unfoldable pub fire_buffered_notification : ℕ → ℕ → Userspace F → Userspace F
  unfolding emit_report
  fire_buffered_notification seid pdrid u = elim (lookup (seid, pdrid) u.pending_ddn) [
    | none ↦ u
    | some p ↦
        let fired = record u { pending_ddn = delete (seid, pdrid) u.pending_ddn } in
        elim (lookup seid u.sessions) [
          | none ↦ fired
          | some s ↦
              (if ltb 0 (length (buffer_at pdrid s.buffers))
                then emit_report (downlink_data seid pdrid p.action p.payload) fired
                else fired)
        ]
  ]

  abbrev pub buffer_in : PdrBinding → Bytes → SessionState F → SessionState F
  buffer_in b payload s = record s {
    buffers =
        insert b.pdr.id (enqueue (buffered_packet_limit b) (buffer_at b.pdr.id s.buffers) payload)
          s.buffers;
  }

  -- The state after `bufferPacket`.
  unfoldable pub buffer_packet : PdrBinding → Bytes → Userspace F → Userspace F
  unfolding enqueue buffered_packet_limit schedule_buffered_notification
  buffer_packet b payload u =
      schedule_buffered_notification b payload (elim (lookup b.seid u.sessions) [
        | none ↦ u
        | some s ↦ store_session b.seid (buffer_in b payload s) u
      ])

  -- The binding under which the packets of a PDR are let go. `none` is a panic of the Go runtime:
  -- the PDR has no PDI, or no binding is listed under its UE address.
  unfoldable pub transition_binding : ℕ → PdrRule → Userspace F → Option PdrBinding
  unfolding candidate_of
  transition_binding seid p u = elim p.pdi [
    | none ↦ none
    | some pdi ↦ elim (candidate_of seid p.id (bindings_at pdi.ue_ipv4 u.snapshot.downlink)) [
      | none ↦ first_binding (bindings_at pdi.ue_ipv4 (build_runtime_snapshot u.sessions).downlink)
      | some c ↦ some c
    ]
  ]

  abbrev pub sent : Option PacketOutcome → Userspace F → Userspace F
  sent none u = u
  sent (some o) u = publish_outcome o u

  unfoldable pub forward_all : PdrBinding → List Bytes → Userspace F → Userspace F
  unfolding publish_outcome
  forward_all b [] u = u
  forward_all b (p ∷ ps) u = forward_all b ps (sent (forward_buffered_payload b p) u)

  abbrev pub release : FarRule → List Bytes → PdrBinding → Userspace F → Userspace F
  release next queue b u = if act_forw next.apply_action then forward_all b queue u else u

  abbrev pub without_buffer : ℕ → ℕ → SessionState F → Userspace F → Userspace F
  without_buffer seid pdrid s u = record (cancel_pending_ddn seid pdrid u) {
    sessions = insert seid (record s { buffers = delete pdrid s.buffers }) u.sessions;
  }

  -- What the loop does for a PDR of the FAR; `none` is a panic of the Go runtime.
  abbrev pub release_pdr :
      ℕ → FarRule → PdrRule → SessionState F → Userspace F → Option (Userspace F)
  release_pdr seid next p s u =
      let queue = buffer_at p.id s.buffers in
      if length queue == 0
      then some u
      else (elim (transition_binding seid p (without_buffer seid p.id s u)) [
        | none ↦ none
        | some b ↦ some (release next queue b (without_buffer seid p.id s u))
      ])

  -- The loop over the PDRs of the session, whose state is the one that is stored.
  unfoldable pub release_pdrs : ℕ → FarRule → Assoc ℕ PdrRule → Userspace F → Option (Userspace F)
  unfolding transition_binding forward_all cancel_pending_ddn
  release_pdrs seid next [] u = some u
  release_pdrs seid next ((id, p) ∷ ps) u = elim (lookup seid u.sessions) [
    | none ↦ some u
    | some s ↦ elim (uses_far next.id p) [
      | false ↦ release_pdrs seid next ps u
      | true ↦ elim (release_pdr seid next p s u) [
        | none ↦ none
        | some u' ↦ release_pdrs seid next ps u'
      ]
    ]
  ]

  -- `handleFARTransitionLocked`.
  unfoldable pub handle_far_transition :
      ℕ → SessionState F → FarRule → FarRule → Userspace F → Option (Userspace F)
  unfolding release_pdrs
  handle_far_transition seid s prev next u =
      if act_buff prev.apply_action then release_pdrs seid next s.pdrs u else some u
