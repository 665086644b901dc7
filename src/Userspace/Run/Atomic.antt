-- ===== src/Userspace/Run/Atomic.antt =====
-- internal/forwarder/userspace/driver.go: what an operation that fails leaves behind.
use go_upf.Base.{ℕ, Option, none, some, List, ◌≡◌, refl, subst, Bytes}
use go_upf.Report.{UsaReport}
use go_upf.Userspace.Rule.{Try, ok, fail, Failure, SdfFilterRule}
use go_upf.Userspace.Parse.Pdr.{decode_pdr}
use go_upf.Userspace.Parse.Far.{decode_far}
use go_upf.Userspace.Parse.Qer.{decode_qer}
use go_upf.Userspace.Parse.Urr.{decode_urr, decode_bar}
use go_upf.Userspace.State.{Userspace}
use go_upf.Userspace.Driver.{
  Done, after, checked, far_checked, existing, change_far, far_changed, create_pdr, update_pdr,
  remove_pdr, create_far, update_far, remove_far, create_qer, update_qer, remove_qer, create_urr,
  update_urr, remove_urr, create_bar, update_bar, remove_bar, report_usage,
}
use go_upf.Userspace.Run.{
  Operation, run, without_reports, do_create_pdr, do_update_pdr, do_remove_pdr, do_create_far,
  do_update_far, do_remove_far, do_create_qer, do_update_qer, do_remove_qer, do_create_urr,
  do_update_urr, do_remove_urr, do_create_bar, do_update_bar, do_remove_bar, do_report_usage,
}

module _ {F : Type 0} where
  -- The answer, if it is an error, comes with the state that was given.
  abbrev Atomic : Userspace F → Option (Done F) → Type 0
  Atomic u none = Unit {0}
  Atomic u (some (fail e, u')) = u' ≡ u
  Atomic u (some (ok a, u')) = Unit {0}

  after-Atomic :
      {A : Type 0} (u : Userspace F) (t : Try A) (change : A → Userspace F)
      → Atomic u (some (after u t change))
  after-Atomic u (fail e) change = refl
  after-Atomic u (ok a) change = tt

  checked-Atomic :
      {A : Type 0} (u : Userspace F) (t : Try A) (k : A → Done F)
      → ((a : A) → Atomic u (some (k a)))
      → Atomic u (some (checked u t k))
  checked-Atomic u (fail e) k h = refl
  checked-Atomic u (ok a) k h = h a

  far_checked-Atomic :
      {A : Type 0} (u : Userspace F) (t : Try A) (k : A → Option (Done F))
      → ((a : A) → Atomic u (k a))
      → Atomic u (far_checked u t k)
  far_checked-Atomic u (fail e) k h = refl
  far_checked-Atomic u (ok a) k h = h a

  far_changed-Atomic : (u : Userspace F) (o : Option (Userspace F)) → Atomic u (far_changed o)
  far_changed-Atomic u none = tt
  far_changed-Atomic u (some v) = tt

  without_reports-Atomic :
      {A : Type 0} (u : Userspace F) (t : Try A) (k : A → Try (List UsaReport) × Userspace F)
      → ((a : A) → Atomic u (some (without_reports (k a))))
      → Atomic u (some (without_reports (checked u t k)))
  without_reports-Atomic u (fail e) k h = refl
  without_reports-Atomic u (ok a) k h = h a

  module _ (parse_flow : Bytes → Try SdfFilterRule) (now : ℕ) where
    run-Atomic : (op : Operation) (u : Userspace F) → Atomic u (run parse_flow now op u)
    unfolding run create_pdr update_pdr remove_pdr create_far update_far remove_far create_qer
        update_qer remove_qer create_urr update_urr remove_urr create_bar update_bar remove_bar
        report_usage
    run-Atomic (do_create_pdr seid els raw) u = after-Atomic u (decode_pdr parse_flow els raw) _
    run-Atomic (do_update_pdr seid els raw) u =
        checked-Atomic u (decode_pdr parse_flow els raw) _
          (λ r. after-Atomic u (existing (λ s. s.pdrs) seid r.id u) _)
    run-Atomic (do_create_far seid els raw) u = after-Atomic u (decode_far els raw) _
    run-Atomic (do_update_far seid els raw) u = far_checked-Atomic u (decode_far els raw) _ (λ r.
        far_checked-Atomic u (existing (λ s. s.fars) seid r.id u) _
          (λ x. far_changed-Atomic u (change_far seid r x u)))
    run-Atomic (do_create_qer seid els raw) u = after-Atomic u (decode_qer els raw) _
    run-Atomic (do_update_qer seid els raw) u =
        checked-Atomic u (decode_qer els raw) _
          (λ r. after-Atomic u (existing (λ s. s.qers) seid r.id u) _)
    run-Atomic (do_create_urr seid els raw) u = after-Atomic u (decode_urr els raw) _
    run-Atomic (do_update_urr seid els raw) u =
        checked-Atomic u (decode_urr els raw) _
          (λ r. after-Atomic u (existing (λ s. s.urrs) seid r.id u) _)
    run-Atomic (do_create_bar seid els raw) u = after-Atomic u (decode_bar els raw) _
    run-Atomic (do_update_bar seid els raw) u =
        checked-Atomic u (decode_bar els raw) _
          (λ r. after-Atomic u (existing (λ s. s.bars) seid r.id u) _)
    run-Atomic (do_remove_pdr seid none) u = refl
    run-Atomic (do_remove_pdr seid (some id)) u =
        after-Atomic u (existing (λ s. s.pdrs) seid id u) _
    run-Atomic (do_remove_far seid none) u = refl
    run-Atomic (do_remove_far seid (some id)) u =
        after-Atomic u (existing (λ s. s.fars) seid id u) _
    run-Atomic (do_remove_qer seid none) u = refl
    run-Atomic (do_remove_qer seid (some id)) u =
        after-Atomic u (existing (λ s. s.qers) seid id u) _
    run-Atomic (do_remove_urr seid none) u = refl
    run-Atomic (do_remove_urr seid (some id)) u =
        without_reports-Atomic u (existing (λ s. s.urrs) seid id u) _ (λ x. tt)
    run-Atomic (do_remove_bar seid none) u = refl
    run-Atomic (do_remove_bar seid (some id)) u =
        after-Atomic u (existing (λ s. s.bars) seid id u) _
    run-Atomic (do_report_usage seid id reports) u =
        after-Atomic u (existing (λ s. s.urrs) seid id u) _

    -- Every operation on rules that answers an error leaves the driver's state as it was.
    pub run-fail :
        (op : Operation) (e : Failure) (u u' : Userspace F)
        → run parse_flow now op u ≡ some (fail e, u')
        → u' ≡ u
    run-fail op e u u' h = subst (λ o. Atomic u o) h (run-Atomic op u)
