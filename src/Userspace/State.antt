-- ===== src/Userspace/State.antt =====
-- internal/forwarder/userspace/driver.go, stats.go and bar_delay.go: the state of the driver. The
-- channels of outcomes and the report handler are the lists of what was sent to them, the oldest
-- first. A packet is handled at one time, `now`, and no worker is stopped meanwhile.
use go_upf.Base.{
  ℕ, ◌+◌, ◌%◌, Bool, ◌&&◌, none, some, List, [], ◌∷◌, ◌++◌, length, Assoc, lookup, insert, delete,
  ◌==◌, if◌then◌else◌, nat_eq, nat_pair_eq, Bytes,
}
use go_upf.Report.{SessReport}
use go_upf.Userspace.Rule.{SessionState, new_session_state}
use go_upf.Userspace.Binding.{RuntimeSnapshot, build_runtime_snapshot}
use go_upf.Userspace.Forward.{PacketOutcome}

-- `statsTracker`. The counters of the sockets' errors belong to the packet I/O.
pub record Stats : Type 0 where
  pub uplink_packets : ℕ  -- uint64, as are the others
  pub downlink_packets : ℕ
  pub forwarded_packets : ℕ
  pub dropped_packets : ℕ
  pub buffered_packets : ℕ
  pub uplink_pdr_misses : ℕ
  pub downlink_pdr_misses : ℕ
  pub unsupported_downlink_l3 : ℕ
  pub uplink_packet_errors : ℕ
  pub downlink_packet_errors : ℕ

-- `Add(1)` of an atomic uint64.
abbrev pub add_one : ℕ → ℕ
add_one n = (n + 1) % 18446744073709551616

-- `pendingDDNNotification`, with a timer that fires later.
pub record PendingDdn : Type 0 where
  pub payload : Bytes
  pub action : ℕ

pub record Userspace (F : Type 0) : Type 0 where
  pub sessions : Assoc ℕ (SessionState F)
  pub snapshot : RuntimeSnapshot
  pub stats : Stats
  pub pending_ddn : Assoc (ℕ × ℕ) PendingDdn  -- by SEID and PDR ID
  pub egress : List PacketOutcome
  pub emitted : List SessReport

module _ {F : Type 0} where
  -- `publishSnapshotLocked`.
  unfoldable pub publish_snapshot : Userspace F → Userspace F
  publish_snapshot u = record u { snapshot = build_runtime_snapshot u.sessions }

  -- `sess.X = …` for the session that is stored under the SEID.
  abbrev pub store_session : ℕ → SessionState F → Userspace F → Userspace F
  store_session seid s u = record u { sessions = insert seid s u.sessions }

  -- `publishOutcome`.
  unfoldable pub publish_outcome : PacketOutcome → Userspace F → Userspace F
  publish_outcome o u = record u { egress = u.egress ++ o ∷ [] }

  -- `emitReport`.
  unfoldable pub emit_report : SessReport → Userspace F → Userspace F
  emit_report r u = record u { emitted = u.emitted ++ r ∷ [] }

  -- `cancelPendingDDNLocked`.
  unfoldable pub cancel_pending_ddn : ℕ → ℕ → Userspace F → Userspace F
  cancel_pending_ddn seid pdrid u = record u { pending_ddn = delete (seid, pdrid) u.pending_ddn }

  -- The session of `ensureSessionLocked`.
  unfoldable pub ensure_session : ℕ → Userspace F → SessionState F
  ensure_session seid u = elim (lookup seid u.sessions) [ none ↦ new_session_state | some s ↦ s ]

  -- The test of `deleteSessionIfEmptyLocked`.
  unfoldable pub is_empty : SessionState F → Bool
  is_empty s =
      length s.pdrs == 0
      && (length s.fars == 0
          && (length s.qers == 0
              && (length s.urrs == 0
                  && (length s.bars == 0 && (length s.urr_reports == 0 && length s.buffers == 0)))))

-- The loop over pendingDDN.
abbrev pub without_seid : ℕ → Assoc (ℕ × ℕ) PendingDdn → Assoc (ℕ × ℕ) PendingDdn
without_seid seid [] = []
without_seid seid (((s, p), d) ∷ m) =
    let rest = without_seid seid m in if s == seid then rest else ((s, p), d) ∷ rest

module _ {F : Type 0} where
  -- `deleteSessionIfEmptyLocked`.
  unfoldable pub delete_session_if_empty : ℕ → SessionState F → Userspace F → Userspace F
  unfolding is_empty
  delete_session_if_empty seid s u =
      if is_empty s
      then record u {
        sessions = delete seid u.sessions;
        pending_ddn = without_seid seid u.pending_ddn;
      }
      else u

-- `stopPendingDDN`.
unfoldable pub stop_pending_ddn : {F : Type 0} → Userspace F → Userspace F
stop_pending_ddn u = record u { pending_ddn = [] }
