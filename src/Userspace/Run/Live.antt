-- ===== src/Userspace/Run/Live.antt =====
-- internal/forwarder/userspace/driver.go: the sessions that are kept.
use go_upf.Base.{
  ℕ, Option, none, some, List, ◌≡◌, sym, subst, Bytes, insert, delete, Bool-cases, inl, inr, nat_eq,
}
use go_upf.Report.{UsaReport, act_buff}
use go_upf.Userspace.Rule.{Try, ok, fail, SdfFilterRule, SessionState, FarRule}
use go_upf.Userspace.Parse.Pdr.{decode_pdr}
use go_upf.Userspace.Parse.Far.{decode_far}
use go_upf.Userspace.Parse.Qer.{decode_qer}
use go_upf.Userspace.Parse.Urr.{decode_urr, decode_bar}
use go_upf.Userspace.State.{Userspace, publish_snapshot, cancel_pending_ddn, ensure_session}
use go_upf.Userspace.Buffer.{handle_far_transition}
use go_upf.Userspace.Merge.{merge_far_rule, merge_pdr_rule}
use go_upf.Userspace.Driver.{
  Done, after, checked, far_checked, existing, change_far, far_changed, put, create_pdr, update_pdr,
  remove_pdr, create_far, update_far, remove_far, cancel_of_far, create_qer, update_qer, remove_qer,
  create_urr, update_urr, remove_urr, without_urr, create_bar, update_bar, remove_bar, report_usage,
}
use go_upf.Userspace.Run.{
  Operation, run, without_reports, do_create_pdr, do_update_pdr, do_remove_pdr, do_create_far,
  do_update_far, do_remove_far, do_create_qer, do_update_qer, do_remove_qer, do_create_urr,
  do_update_urr, do_remove_urr, do_create_bar, do_update_bar, do_remove_bar, do_report_usage,
}
use go_upf.Userspace.Run.Sessions.{
  length-insert_nonzero, put-AllLive, take_out-AllLive, with_pdr_live, with_far_live, with_qer_live,
  with_urr_live, with_bar_live, with_reports_live, cancel_of_far-sessions, AllLive,
}
use go_upf.Userspace.Run.Release.{
  Releasing, insert-Releasing, StaysReleasing, release_pdrs-Releasing,
}

module _ {F : Type 0} where
  -- Of an operation's answer, the state where it does not panic.
  abbrev StaysLive : Option (Done F) → Type 0
  StaysLive none = Unit {0}
  StaysLive (some d) = AllLive d.1.sessions

  change_far-StaysLive :
      (seid : ℕ) (r : FarRule) (s : SessionState F) (prev : FarRule) (u : Userspace F)
      → AllLive u.sessions
      → StaysLive (far_changed (change_far seid r (s, prev) u))
  unfolding handle_far_transition publish_snapshot
  change_far-StaysLive seid r s prev u l =
      weaker (change_far seid r (s, prev) u) (elim (Bool-cases (act_buff prev.apply_action)) [
        | inl e ↦ rw e (release_pdrs-Releasing seid merged s'.pdrs (put seid s' u) start)
        | inr e ↦ rw e start
      ])
    where
      merged : FarRule
      merged = merge_far_rule prev r

      s' : SessionState F
      s' = record s { fars = insert r.id merged s.fars }

      start : Releasing seid (put seid s' u).sessions
      start = insert-Releasing seid s' u.sessions (length-insert_nonzero r.id merged s.fars) l

      weaker : (o : Option (Userspace F)) → StaysReleasing seid o → StaysLive (far_changed o)
      weaker none k = tt
      weaker (some v) k = k.0

  after-StaysLive :
      {A : Type 0} (u : Userspace F) (t : Try A) (change : A → Userspace F)
      → AllLive u.sessions
      → ((a : A) → AllLive (change a).sessions)
      → StaysLive (some (after u t change))
  after-StaysLive u (fail e) change l h = l
  after-StaysLive u (ok a) change l h = h a

  checked-StaysLive :
      {A : Type 0} (u : Userspace F) (t : Try A) (k : A → Done F)
      → AllLive u.sessions
      → ((a : A) → StaysLive (some (k a)))
      → StaysLive (some (checked u t k))
  checked-StaysLive u (fail e) k l h = l
  checked-StaysLive u (ok a) k l h = h a

  far_checked-StaysLive :
      {A : Type 0} (u : Userspace F) (t : Try A) (k : A → Option (Done F))
      → AllLive u.sessions
      → ((a : A) → StaysLive (k a))
      → StaysLive (far_checked u t k)
  far_checked-StaysLive u (fail e) k l h = l
  far_checked-StaysLive u (ok a) k l h = h a

  without_reports-StaysLive :
      {A : Type 0} (u : Userspace F) (t : Try A) (k : A → Try (List UsaReport) × Userspace F)
      → AllLive u.sessions
      → ((a : A) → StaysLive (some (without_reports (k a))))
      → StaysLive (some (without_reports (checked u t k)))
  without_reports-StaysLive u (fail e) k l h = l
  without_reports-StaysLive u (ok a) k l h = h a

  module _ (parse_flow : Bytes → Try SdfFilterRule) (now : ℕ) where
    run-StaysLive :
        (op : Operation) (u : Userspace F)
        → AllLive u.sessions
        → StaysLive (run parse_flow now op u)
    unfolding run create_pdr update_pdr remove_pdr create_far update_far remove_far create_qer
        update_qer remove_qer create_urr update_urr remove_urr create_bar update_bar remove_bar
        report_usage cancel_pending_ddn
    run-StaysLive (do_create_pdr seid els raw) u l =
        after-StaysLive u (decode_pdr parse_flow els raw) _ l
          (λ r. put-AllLive seid _ u (with_pdr_live (ensure_session seid u) r.id r) l)
    run-StaysLive (do_update_pdr seid els raw) u l =
        checked-StaysLive u (decode_pdr parse_flow els raw) _ l (λ r.
          after-StaysLive u (existing (λ s. s.pdrs) seid r.id u) _ l
            (λ x. put-AllLive seid _ u (with_pdr_live x.0 r.id (merge_pdr_rule x.1 r)) l))
    run-StaysLive (do_create_far seid els raw) u l =
        after-StaysLive u (decode_far els raw) _ l
          (λ r. put-AllLive seid _ u (with_far_live (ensure_session seid u) r.id r) l)
    run-StaysLive (do_update_far seid els raw) u l =
        far_checked-StaysLive u (decode_far els raw) _ l (λ r.
          far_checked-StaysLive u (existing (λ s. s.fars) seid r.id u) _ l
            (λ x. change_far-StaysLive seid r x.0 x.1 u l))
    run-StaysLive (do_create_qer seid els raw) u l =
        after-StaysLive u (decode_qer els raw) _ l
          (λ r. put-AllLive seid _ u (with_qer_live (ensure_session seid u) r.id r) l)
    run-StaysLive (do_update_qer seid els raw) u l =
        checked-StaysLive u (decode_qer els raw) _ l (λ r.
          after-StaysLive u (existing (λ s. s.qers) seid r.id u) _ l
            (λ x. put-AllLive seid _ u (with_qer_live x.0 r.id r) l))
    run-StaysLive (do_create_urr seid els raw) u l =
        after-StaysLive u (decode_urr els raw) _ l
          (λ r. put-AllLive seid _ u (with_urr_live now (ensure_session seid u) r) l)
    run-StaysLive (do_update_urr seid els raw) u l =
        checked-StaysLive u (decode_urr els raw) _ l (λ r.
          after-StaysLive u (existing (λ s. s.urrs) seid r.id u) _ l
            (λ x. put-AllLive seid _ u (with_urr_live now x.0 r) l))
    run-StaysLive (do_create_bar seid els raw) u l =
        after-StaysLive u (decode_bar els raw) _ l
          (λ r. put-AllLive seid _ u (with_bar_live (ensure_session seid u) r.id r) l)
    run-StaysLive (do_update_bar seid els raw) u l =
        checked-StaysLive u (decode_bar els raw) _ l (λ r.
          after-StaysLive u (existing (λ s. s.bars) seid r.id u) _ l
            (λ x. put-AllLive seid _ u (with_bar_live x.0 r.id r) l))
    run-StaysLive (do_remove_pdr seid none) u l = l
    run-StaysLive (do_remove_pdr seid (some id)) u l =
        after-StaysLive u (existing (λ s. s.pdrs) seid id u) _ l (λ x.
          take_out-AllLive seid (record x.0 { pdrs = delete id x.0.pdrs })
            (cancel_pending_ddn seid id u) l)
    run-StaysLive (do_remove_far seid none) u l = l
    run-StaysLive (do_remove_far seid (some id)) u l =
        after-StaysLive u (existing (λ s. s.fars) seid id u) _ l (λ x.
          take_out-AllLive seid (record x.0 { fars = delete id x.0.fars })
            (cancel_of_far seid id x.0.pdrs u)
            (subst AllLive (sym (cancel_of_far-sessions seid id x.0.pdrs u)) l))
    run-StaysLive (do_remove_qer seid none) u l = l
    run-StaysLive (do_remove_qer seid (some id)) u l =
        after-StaysLive u (existing (λ s. s.qers) seid id u) _ l
          (λ x. take_out-AllLive seid (record x.0 { qers = delete id x.0.qers }) u l)
    run-StaysLive (do_remove_urr seid none) u l = l
    run-StaysLive (do_remove_urr seid (some id)) u l =
        without_reports-StaysLive u (existing (λ s. s.urrs) seid id u) _ l
          (λ x. take_out-AllLive seid (without_urr id x.0) u l)
    run-StaysLive (do_remove_bar seid none) u l = l
    run-StaysLive (do_remove_bar seid (some id)) u l =
        after-StaysLive u (existing (λ s. s.bars) seid id u) _ l
          (λ x. take_out-AllLive seid (record x.0 { bars = delete id x.0.bars }) u l)
    run-StaysLive (do_report_usage seid id reports) u l =
        after-StaysLive u (existing (λ s. s.urrs) seid id u) _ l
          (λ x. put-AllLive seid _ u (with_reports_live x.0 id reports) l)

    -- If every session that the driver keeps has a rule, a usage report or a waiting packet, then so
    -- it is after every operation on rules that does not panic, whether it succeeds or fails.
    pub run-AllLive :
        (op : Operation) (u : Userspace F) (d : Done F)
        → AllLive u.sessions
        → run parse_flow now op u ≡ some d
        → AllLive d.1.sessions
    run-AllLive op u d l h = subst (λ o. StaysLive o) h (run-StaysLive op u l)
