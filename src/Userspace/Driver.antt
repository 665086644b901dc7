-- ===== src/Userspace/Driver.antt =====
-- internal/forwarder/userspace/driver.go and runtime.go: the operations on the rules of a session. An
-- operation answers an error or a result, and the state after it. The rules are decoded by
-- Userspace/Parse.antt, and an element is its children, `none` for one that does not decode, and
-- its bytes. The identifier in a Remove element is what go-pfcp's decoder answers.
use go_upf.Base.{
  ℕ, Option, none, some, List, [], ◌∷◌, Assoc, lookup, insert, delete, if◌then◌else◌, nat_eq, Bytes,
}
use go_upf.Report.{UsaReport}
use go_upf.Userspace.Rule.{
  Try, ok, fail, ◌>>=◌, decoded, session_not_found, rule_not_found, PdrRule, FarRule, QerRule,
  UrrRule, BarRule, SessionState, SdfFilterRule,
}
use go_upf.Userspace.Parse.Pdr.{PdrElement, decode_pdr}
use go_upf.Userspace.Parse.Far.{FarElement, decode_far}
use go_upf.Userspace.Parse.Qer.{QerElement, decode_qer}
use go_upf.Userspace.Parse.Urr.{UrrElement, decode_urr, BarElement, decode_bar}
use go_upf.Userspace.Merge.{merge_pdr_rule, merge_far_rule}
use go_upf.Userspace.Buffer.{handle_far_transition, uses_far}
use go_upf.Userspace.State.{
  Userspace, publish_snapshot, store_session, cancel_pending_ddn, ensure_session,
  delete_session_if_empty,
}

-- The two guards of an operation on a rule that has to be there.
abbrev pub existing :
    {F R : Type 0} → (SessionState F → Assoc ℕ R) → ℕ → ℕ → Userspace F → Try (SessionState F × R)
existing table seid id u = elim (lookup seid u.sessions) [
  | none ↦ fail session_not_found
  | some s ↦ elim (lookup id (table s)) [ none ↦ fail rule_not_found | some r ↦ ok (s, r) ]
]

-- An answer without a result.
abbrev pub Done : Type 0 → Type 0
Done F = Try (Unit {0}) × Userspace F

-- `if _, ok := m[id]; !ok { m[id] = now }`.
abbrev pub start_at : ℕ → ℕ → Assoc ℕ ℕ → Assoc ℕ ℕ
start_at now id m = elim (lookup id m) [ none ↦ insert id now m | some t ↦ m ]

module _ {F : Type 0} where
  -- A change that is made where the guards let it through.
  abbrev pub after : {A : Type 0} → Userspace F → Try A → (A → Userspace F) → Done F
  after u (fail e) change = (fail e, u)
  after u (ok a) change = (ok tt, change a)

  -- `if err != nil { return err }`, with the lock not yet taken.
  abbrev pub checked :
      {A R : Type 0} → Userspace F → Try A → (A → Try R × Userspace F) → Try R × Userspace F
  checked u (fail e) k = (fail e, u)
  checked u (ok a) k = k a

  -- The session with a rule, stored and published.
  abbrev pub put : ℕ → SessionState F → Userspace F → Userspace F
  put seid s u = publish_snapshot (store_session seid s u)

  -- The session without a rule: stored, deleted where it is empty, and published.
  abbrev pub take_out : ℕ → SessionState F → Userspace F → Userspace F
  take_out seid s u = publish_snapshot (delete_session_if_empty seid s (store_session seid s u))

  -- `CreatePDR`, from the rule on, and so for the other rules.
  abbrev pub put_pdr : ℕ → PdrRule → Userspace F → Userspace F
  put_pdr seid r u =
      let s = ensure_session seid u in put seid (record s { pdrs = insert r.id r s.pdrs }) u

  abbrev pub put_far : ℕ → FarRule → Userspace F → Userspace F
  put_far seid r u =
      let s = ensure_session seid u in put seid (record s { fars = insert r.id r s.fars }) u

  abbrev pub put_qer : ℕ → QerRule → Userspace F → Userspace F
  put_qer seid r u =
      let s = ensure_session seid u in put seid (record s { qers = insert r.id r s.qers }) u

  abbrev pub with_urr : ℕ → UrrRule → SessionState F → SessionState F
  with_urr now r s = record s {
    urrs = insert r.id r s.urrs;
    urr_period_at = start_at now r.id s.urr_period_at;
  }

  abbrev pub put_bar : ℕ → BarRule → Userspace F → Userspace F
  put_bar seid r u =
      let s = ensure_session seid u in put seid (record s { bars = insert r.id r s.bars }) u

  unfoldable pub create_far : ℕ → Option (List FarElement) → Bytes → Userspace F → Done F
  unfolding decode_far publish_snapshot ensure_session
  create_far seid els raw u = after u (decode_far els raw) (λ r. put_far seid r u)

  unfoldable pub create_qer : ℕ → Option (List QerElement) → Bytes → Userspace F → Done F
  unfolding decode_qer publish_snapshot ensure_session
  create_qer seid els raw u = after u (decode_qer els raw) (λ r. put_qer seid r u)

  unfoldable pub create_urr : ℕ → ℕ → Option (List UrrElement) → Bytes → Userspace F → Done F
  unfolding decode_urr publish_snapshot ensure_session
  create_urr now seid els raw u =
      after u (decode_urr els raw) (λ r. put seid (with_urr now r (ensure_session seid u)) u)

  unfoldable pub create_bar : ℕ → Option (List BarElement) → Bytes → Userspace F → Done F
  unfolding decode_bar publish_snapshot ensure_session
  create_bar seid els raw u = after u (decode_bar els raw) (λ r. put_bar seid r u)

  unfoldable pub update_qer : ℕ → Option (List QerElement) → Bytes → Userspace F → Done F
  unfolding decode_qer publish_snapshot
  update_qer seid els raw u = checked u (decode_qer els raw) (λ r.
      after u (existing (λ s. s.qers) seid r.id u)
        (λ x. put seid (record x.0 { qers = insert r.id r x.0.qers }) u))

  -- `UpdateURR`, which reports nothing.
  unfoldable pub update_urr : ℕ → ℕ → Option (List UrrElement) → Bytes → Userspace F → Done F
  unfolding decode_urr publish_snapshot
  update_urr now seid els raw u =
      checked u (decode_urr els raw)
        (λ r. after u (existing (λ s. s.urrs) seid r.id u) (λ x. put seid (with_urr now r x.0) u))

  unfoldable pub update_bar : ℕ → Option (List BarElement) → Bytes → Userspace F → Done F
  unfolding decode_bar publish_snapshot
  update_bar seid els raw u = checked u (decode_bar els raw) (λ r.
      after u (existing (λ s. s.bars) seid r.id u)
        (λ x. put seid (record x.0 { bars = insert r.id r x.0.bars }) u))

  -- The change of `UpdateFAR`; `none` is a panic of the Go runtime.
  abbrev pub change_far :
      ℕ → FarRule → SessionState F × FarRule → Userspace F → Option (Userspace F)
  change_far seid r (s, prev) u =
      let merged = merge_far_rule prev r in
      let s' = record s { fars = insert r.id merged s.fars } in
      handle_far_transition seid s' prev merged (put seid s' u)

  abbrev pub far_changed : Option (Userspace F) → Option (Done F)
  far_changed none = none
  far_changed (some u) = some (ok tt, u)

  abbrev pub far_checked :
      {A : Type 0} → Userspace F → Try A → (A → Option (Done F)) → Option (Done F)
  far_checked u (fail e) k = some (fail e, u)
  far_checked u (ok a) k = k a

  unfoldable pub update_far : ℕ → Option (List FarElement) → Bytes → Userspace F → Option (Done F)
  unfolding decode_far publish_snapshot merge_far_rule handle_far_transition
  update_far seid els raw u = far_checked u (decode_far els raw) (λ r.
      far_checked u (existing (λ s. s.fars) seid r.id u) (λ x. far_changed (change_far seid r x u)))

  module _ (parse_flow : Bytes → Try SdfFilterRule) where
    unfoldable pub create_pdr : ℕ → Option (List PdrElement) → Bytes → Userspace F → Done F
    unfolding decode_pdr publish_snapshot ensure_session
    create_pdr seid els raw u = after u (decode_pdr parse_flow els raw) (λ r. put_pdr seid r u)

    unfoldable pub update_pdr : ℕ → Option (List PdrElement) → Bytes → Userspace F → Done F
    unfolding decode_pdr publish_snapshot merge_pdr_rule
    update_pdr seid els raw u = checked u (decode_pdr parse_flow els raw) (λ r.
        after u (existing (λ s. s.pdrs) seid r.id u)
          (λ x. put seid (record x.0 { pdrs = insert r.id (merge_pdr_rule x.1 r) x.0.pdrs }) u))

  unfoldable pub remove_pdr : ℕ → Option ℕ → Userspace F → Done F
  unfolding publish_snapshot delete_session_if_empty cancel_pending_ddn
  remove_pdr seid none u = (decoded none, u)
  remove_pdr seid (some id) u =
      after u (existing (λ s. s.pdrs) seid id u) (λ x.
        take_out seid (record x.0 { pdrs = delete id x.0.pdrs }) (cancel_pending_ddn seid id u))

  -- The loop over the PDRs of the FAR.
  unfoldable pub cancel_of_far : ℕ → ℕ → Assoc ℕ PdrRule → Userspace F → Userspace F
  unfolding cancel_pending_ddn
  cancel_of_far seid id [] u = u
  cancel_of_far seid id ((i, p) ∷ ps) u =
      let next = if uses_far id p then cancel_pending_ddn seid p.id u else u in
      cancel_of_far seid id ps next

  unfoldable pub remove_far : ℕ → Option ℕ → Userspace F → Done F
  unfolding publish_snapshot delete_session_if_empty cancel_of_far
  remove_far seid none u = (decoded none, u)
  remove_far seid (some id) u = after u (existing (λ s. s.fars) seid id u) (λ x.
      take_out seid (record x.0 { fars = delete id x.0.fars }) (cancel_of_far seid id x.0.pdrs u))

  unfoldable pub remove_qer : ℕ → Option ℕ → Userspace F → Done F
  unfolding publish_snapshot delete_session_if_empty
  remove_qer seid none u = (decoded none, u)
  remove_qer seid (some id) u =
      after u (existing (λ s. s.qers) seid id u)
        (λ x. take_out seid (record x.0 { qers = delete id x.0.qers }) u)

  unfoldable pub remove_bar : ℕ → Option ℕ → Userspace F → Done F
  unfolding publish_snapshot delete_session_if_empty
  remove_bar seid none u = (decoded none, u)
  remove_bar seid (some id) u =
      after u (existing (λ s. s.bars) seid id u)
        (λ x. take_out seid (record x.0 { bars = delete id x.0.bars }) u)

  abbrev pub reports_at : ℕ → SessionState F → List UsaReport
  reports_at id s = elim (lookup id s.urr_reports) [ none ↦ [] | some l ↦ l ]

  abbrev pub without_urr : ℕ → SessionState F → SessionState F
  without_urr id s = record s {
    urrs = delete id s.urrs;
    urr_period_at = delete id s.urr_period_at;
    urr_reports = delete id s.urr_reports;
  }

  -- `RemoveURR` answers the reports that were collected.
  unfoldable pub remove_urr : ℕ → Option ℕ → Userspace F → Try (List UsaReport) × Userspace F
  unfolding publish_snapshot delete_session_if_empty
  remove_urr seid none u = (decoded none, u)
  remove_urr seid (some id) u =
      checked u (existing (λ s. s.urrs) seid id u)
        (λ x. (ok (reports_at id x.0), take_out seid (without_urr id x.0) u))

  unfoldable pub query_urr : ℕ → ℕ → Userspace F → Try (List UsaReport)
  query_urr seid id u = existing (λ s. s.urrs) seid id u >>= λ x. ok (reports_at id x.0)

  -- `ReportUsage`.
  unfoldable pub report_usage : ℕ → ℕ → List UsaReport → Userspace F → Done F
  unfolding publish_snapshot
  report_usage seid id reports u =
      after u (existing (λ s. s.urrs) seid id u)
        (λ x. put seid (record x.0 { urr_reports = insert id reports x.0.urr_reports }) u)
