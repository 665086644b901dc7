-- ===== src/Userspace/Pipeline/Balance.antt =====
-- internal/forwarder/userspace/pipeline.go: the counters along the way of a packet.
use go_upf.Base.{
  ℕ, Bool, Option, none, some, List, [], ◌∷◌, ◌≡◌, refl, sym, subst, arith, Bytes, length,
  if◌then◌else◌, ◌==◌, lookup, nat_eq, Option-cases, Bool-cases, inl, inr,
}
use go_upf.Report.{Report}
use go_upf.Userspace.Gtpu.{DecodedGtpu, Result, decode_gtpu, ok, err}
use go_upf.Userspace.Sdf.{
  PacketDirection, uplink, downlink, MetaResult, parsed, refused, parse_ipv4_packet_meta,
}
use go_upf.Userspace.Rule.{SessionState}
use go_upf.Userspace.Binding.{PdrBinding, match_uplink, match_downlink}
use go_upf.Userspace.Forward.{
  PacketAction, unknown_action, drop_packet, forward_packet, buffer_packet_action, resolve_action,
}
use go_upf.Userspace.State.{
  Userspace, publish_outcome, publish_snapshot, emit_report, store_session,
}
use go_upf.Userspace.Buffer.{buffer_packet, schedule_buffered_notification}
use go_upf.Userspace.Meter.{Floats, mbr_allows, gate_closed}
use go_upf.Userspace.Usage.{update_usage, emit_reports, measure_urrs}
use go_upf.Userspace.Pipeline.{
  Packet, decide, act, handle, process_uplink, process_downlink, process, process_all, seen,
  with_stats, hint_or, forward_in, is_up,
}
use go_upf.Userspace.Pipeline.Counters.{
  Balanced, Owed, seen_lem, failed_lem, missed_lem, unsupported_lem, forwarded_lem, buffered_lem,
  dropped_lem,
}

module _ {F : Type 0} where
  emit_reports-stats :
      (seid : ℕ) (rs : List Report) (u : Userspace F) → (emit_reports seid rs u).stats ≡ u.stats
  unfolding emit_report
  emit_reports-stats seid [] u = refl
  emit_reports-stats seid (r ∷ rs) u = refl

  update_usage-stats :
      (now : ℕ) (b : PdrBinding) (bytes : ℕ) (up : Bool) (u : Userspace F)
      → (update_usage now b bytes up u).stats ≡ u.stats
  unfolding update_usage publish_snapshot
  update_usage-stats now b bytes up u = elim (Bool-cases (length b.urrs == 0)) [
    | inl e ↦ rw e refl
    | inr e ↦ rw e (found (lookup b.seid u.sessions))
  ]
    where
      found :
          (o : Option (SessionState F))
          → (elim o as (λ x. Userspace F) [
            | none ↦ u
            | some s ↦
                let r = measure_urrs now b.urrs bytes up s in
                emit_reports b.seid r.0 (publish_snapshot (store_session b.seid r.1 u))
          ]).stats
            ≡ u.stats
      found none = refl
      found (some s) =
          emit_reports-stats b.seid (measure_urrs now b.urrs bytes up s).0
            (publish_snapshot (store_session b.seid (measure_urrs now b.urrs bytes up s).1 u))

  schedule-stats :
      (b : PdrBinding) (payload : Bytes) (u : Userspace F)
      → (schedule_buffered_notification b payload u).stats ≡ u.stats
  unfolding schedule_buffered_notification emit_report
  schedule-stats b payload u = ground arith

  mbr_allows-stats :
      (fl : Floats F) (now : ℕ) (b : PdrBinding) (bytes : ℕ) (d : PacketDirection) (u : Userspace F)
      → (mbr_allows fl now b bytes d u).1.stats ≡ u.stats
  unfolding mbr_allows
  mbr_allows-stats fl now b bytes d u = ground arith

  buffer_packet-stats :
      (b : PdrBinding) (payload : Bytes) (u : Userspace F)
      → (buffer_packet b payload u).stats ≡ u.stats
  unfolding buffer_packet
  buffer_packet-stats b payload u = elim (Option-cases (lookup b.seid u.sessions)) [
    | inl e ↦ rw e (schedule-stats b payload u)
    | inr (s, e) ↦ rw e (schedule-stats b payload _)
  ]

  module _ (fl : Floats F) (now : ℕ) where
    act-Balanced :
        (d : PacketDirection) (a : PacketAction) (b : PdrBinding) (payload : Bytes)
        (u : Userspace F)
        → Owed u.stats
        → Balanced (act fl now d a b payload u).1.stats
    unfolding act publish_outcome
    act-Balanced d unknown_action b payload u h =
        rw (update_usage-stats now b (length payload) (is_up d) _) (dropped_lem u.stats h)
    act-Balanced d drop_packet b payload u h =
        rw (update_usage-stats now b (length payload) (is_up d) _) (dropped_lem u.stats h)
    act-Balanced d buffer_packet_action b payload u h =
        rw (update_usage-stats now b (length payload) (is_up d) _, buffer_packet-stats b payload u)
          (buffered_lem u.stats h)
    act-Balanced d forward_packet b payload u h = elim (Option-cases (forward_in d b payload)) [
      | inl e ↦ rw (act, e) (failed_lem d u.stats h)
      | inr (o, e) ↦
          rw (act, e)
            (rw (update_usage-stats now b (length payload) (is_up d) _) (forwarded_lem u.stats h))
    ]

    decide-stats :
        (d : PacketDirection) (b : PdrBinding) (payload : Bytes) (u : Userspace F)
        → (decide fl now d b payload u).1.stats ≡ u.stats
    unfolding decide
    decide-stats d b payload u = elim (Bool-cases (gate_closed now u b d)) [
      | inl e ↦ rw e refl
      | inr e ↦ rw e (chosen (resolve_action b))
    ]
      where
        chosen :
            (a : PacketAction)
            → (elim a as (λ x. PacketAction × Userspace F) [
              | unknown_action ↦ (unknown_action, u)
              | drop_packet ↦ (drop_packet, u)
              | buffer_packet_action ↦ (buffer_packet_action, u)
              | forward_packet ↦
                  let r = mbr_allows fl now b (length payload) d u in
                  (if r.0 then forward_packet else drop_packet, r.1)
            ]).1.stats
              ≡ u.stats
        chosen unknown_action = refl
        chosen drop_packet = refl
        chosen buffer_packet_action = refl
        chosen forward_packet = mbr_allows-stats fl now b (length payload) d u

    handle-Balanced :
        (d : PacketDirection) (b : PdrBinding) (payload : Bytes) (u : Userspace F)
        → Owed u.stats
        → Balanced (handle fl now d b payload u).1.stats
    unfolding handle
    handle-Balanced d b payload u h =
        let r = decide fl now d b payload u in
        act-Balanced d r.0 b payload r.1 (subst Owed (sym (decide-stats d b payload u)) h)

    process_uplink-Balanced :
        (p : Packet) (u : Userspace F)
        → Balanced u.stats
        → Balanced (process_uplink fl now p u).1.stats
    unfolding process_uplink
    process_uplink-Balanced p u h = received (decode_gtpu p.payload) refl
      where
        u₁ : Userspace F
        u₁ = with_stats (seen uplink) u

        owed : Owed u₁.stats
        owed = seen_lem uplink u.stats h

        met :
            (g : DecodedGtpu) (m : MetaResult)
            → decode_gtpu p.payload ≡ ok g
            → parse_ipv4_packet_meta g.inner_payload ≡ m
            → Balanced (process_uplink fl now p u).1.stats
        met g (refused e) q k = rw (process_uplink, q, k) (failed_lem uplink u₁.stats owed)
        met g (parsed m) q k =
            elim (Option-cases
              (match_uplink u.snapshot g.teid (hint_or p.ue_ip m.src_ip) (some m))) [
                | inl n ↦ rw (process_uplink, q, k, n) (missed_lem uplink u₁.stats owed)
                | inr (b, n) ↦
                    rw (process_uplink, q, k, n) (handle-Balanced uplink b g.inner_payload u₁ owed)
              ]

        received :
            (r : Result DecodedGtpu)
            → decode_gtpu p.payload ≡ r
            → Balanced (process_uplink fl now p u).1.stats
        received (err e) q = rw (process_uplink, q) (failed_lem uplink u₁.stats owed)
        received (ok g) q = met g (parse_ipv4_packet_meta g.inner_payload) q refl

    process_downlink-Balanced :
        (p : Packet) (u : Userspace F)
        → Balanced u.stats
        → Balanced (process_downlink fl now p u).1.stats
    unfolding process_downlink
    process_downlink-Balanced p u h = met (parse_ipv4_packet_meta p.payload) refl
      where
        owed : Owed (with_stats (seen downlink) u).stats
        owed = seen_lem downlink u.stats h

        met :
            (m : MetaResult)
            → parse_ipv4_packet_meta p.payload ≡ m
            → Balanced (process_downlink fl now p u).1.stats
        met (refused e) q = rw (process_downlink, q) (unsupported_lem (seen downlink u.stats) owed)
        met (parsed m) q =
            elim (Option-cases (match_downlink u.snapshot (hint_or p.ue_ip m.dst_ip) (some m))) [
              | inl n ↦
                  rw (process_downlink, q, n) (missed_lem downlink (seen downlink u.stats) owed)
              | inr (b, n) ↦
                  rw (process_downlink, q, n)
                    (handle-Balanced downlink b p.payload (with_stats (seen downlink) u) owed)
            ]

    process-Balanced :
        (p : Packet) (u : Userspace F) → Balanced u.stats → Balanced (process fl now p u).1.stats
    unfolding process
    process-Balanced p u h = toward p.direction refl
      where
        toward : (d : PacketDirection) → p.direction ≡ d → Balanced (process fl now p u).1.stats
        toward uplink e = rw (process, e) (process_uplink-Balanced p u h)
        toward downlink e = rw (process, e) (process_downlink-Balanced p u h)

    -- Whatever packets a worker takes from its queue, malformed ones included: if the packets that the
    -- counters say were forwarded, dropped or buffered are as many, modulo 2 ^ 64, as those that came
    -- in on the uplink and on the downlink, then they still are when the queue is done.
    pub process_all-Balanced :
        (ps : List Packet) (u : Userspace F)
        → Balanced u.stats
        → Balanced (process_all fl now ps u).stats
    unfolding process_all
    process_all-Balanced [] u h = h
    process_all-Balanced (p ∷ ps) u h =
        process_all-Balanced ps (process fl now p u).1 (process-Balanced p u h)
