-- ===== src/Userspace/Buffer/Notice.antt =====
-- internal/forwarder/userspace/bar_delay.go: the notification that packets wait.
use go_upf.Base.{
  ℕ, ◌-◌, true, ◌&&◌, some, List, [], ◌∷◌, ◌++◌, ◌≡◌, refl, arith, length, lookup, insert,
  lookup-insert_self, ◌==◌, ltb, if◌then◌else◌, Bool-cases, inl, inr, nat_eq, nat_pair_eq, Bytes,
  length-append, length-drop, drop,
}
use go_upf.Report.{act_nocp, SessReport}
use go_upf.Userspace.Rule.{FarRule, SessionState}
use go_upf.Userspace.Binding.{PdrBinding}
use go_upf.Userspace.Forward.{ddn_delay, buffered_packet_limit}
use go_upf.Userspace.State.{Userspace, PendingDdn, emit_report, store_session}
use go_upf.Userspace.Buffer.{
  enqueue, buffer_at, buffer_in, downlink_data, notify_now, buffer_packet,
  schedule_buffered_notification, fire_buffered_notification,
}

enqueue_nonempty :
    (limit : ℕ) (q : List Bytes) (p : Bytes) → ltb 0 (length (enqueue limit q p)) ≡ true
unfolding enqueue
enqueue_nonempty limit q p = elim (Bool-cases (ltb 0 limit && ltb limit (length (q ++ p ∷ [])))) [
  | inl e ↦ rw e (kept e)
  | inr e ↦ rw e whole
]
  where
    kept :
        (ltb 0 limit && ltb limit (length (q ++ p ∷ []))) ≡ true
        → ltb 0 (length (drop (length (q ++ p ∷ []) - limit) (q ++ p ∷ []))) ≡ true
    kept e = ground (
      arith,
      e,
      length-append q (p ∷ []),
      length-drop (length (q ++ p ∷ []) - limit) (q ++ p ∷ []),
    )

    whole : ltb 0 (length (q ++ p ∷ [])) ≡ true
    whole = ground (arith, length-append q (p ∷ []))

abbrev pub notice : PdrBinding → FarRule → Bytes → SessReport
notice b f payload = downlink_data b.seid b.pdr.id f.apply_action payload

fired :
    {F : Type 0} (seid pdrid : ℕ) (v : Userspace F) (p : PendingDdn) (s : SessionState F)
    → lookup (seid, pdrid) v.pending_ddn ≡ some p
    → lookup seid v.sessions ≡ some s
    → ltb 0 (length (buffer_at pdrid s.buffers)) ≡ true
    → (fire_buffered_notification seid pdrid v).emitted
      ≡ v.emitted ++ downlink_data seid pdrid p.action p.payload ∷ []
unfolding fire_buffered_notification emit_report
fired seid pdrid v p s d l q = rw (fire_buffered_notification, d, l, q) refl

module _ {F : Type 0} (b : PdrBinding) (f : FarRule) (payload : Bytes) where
  scheduled :
      (u : Userspace F)
      → b.far ≡ some f
      → act_nocp f.apply_action ≡ true
      → schedule_buffered_notification b payload u ≡ notify_now b f payload u
  unfolding schedule_buffered_notification
  scheduled u e n = rw (schedule_buffered_notification, e, n) refl

  -- When a packet of a session that is there is buffered under a FAR with NOCP, the control plane
  -- is told of this packet: at once where the BAR asks for no delay, and otherwise when the timer
  -- fires, if nothing happens in between.
  pub buffer_packet-notified :
      (u : Userspace F) (s : SessionState F)
      → lookup b.seid u.sessions ≡ some s
      → b.far ≡ some f
      → act_nocp f.apply_action ≡ true
      → (if ddn_delay b == 0
          then (buffer_packet b payload u).emitted
          else (fire_buffered_notification b.seid b.pdr.id (buffer_packet b payload u)).emitted)
        ≡ u.emitted ++ notice b f payload ∷ []
  unfolding buffer_packet emit_report
  buffer_packet-notified u s l e n = elim (Bool-cases (ddn_delay b == 0)) [
    | inl d ↦ rw (l, scheduled stored e n, d) refl
    | inr d ↦
        rw (l, scheduled stored e n, d)
          (fired b.seid b.pdr.id pending waiting (buffer_in b payload s)
            (lookup-insert_self (b.seid, b.pdr.id) waiting u.pending_ddn)
            (lookup-insert_self b.seid (buffer_in b payload s) u.sessions) queued)
  ]
    where
      stored : Userspace F
      stored = store_session b.seid (buffer_in b payload s) u

      waiting : PendingDdn
      waiting = record { payload = payload; action = f.apply_action }

      pending : Userspace F
      pending = record stored { pending_ddn = insert (b.seid, b.pdr.id) waiting u.pending_ddn }

      queued : ltb 0 (length (buffer_at b.pdr.id (buffer_in b payload s).buffers)) ≡ true
      queued =
          rw
            (lookup-insert_self b.pdr.id
              (enqueue (buffered_packet_limit b) (buffer_at b.pdr.id s.buffers) payload) s.buffers)
            (enqueue_nonempty (buffered_packet_limit b) (buffer_at b.pdr.id s.buffers) payload)
