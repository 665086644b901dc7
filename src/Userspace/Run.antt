-- ===== src/Userspace/Run.antt =====
-- internal/forwarder/userspace: whatever the driver is asked to do, one thing after the other.
pub mod Atomic
pub mod Sessions
pub mod Release
pub mod Live
use go_upf.Base.{ℕ, Option, none, some, List, Bytes}
use go_upf.Report.{UsaReport}
use go_upf.Userspace.Rule.{Try, ok, fail, SdfFilterRule}
use go_upf.Userspace.Parse.Pdr.{PdrElement}
use go_upf.Userspace.Parse.Far.{FarElement}
use go_upf.Userspace.Parse.Qer.{QerElement}
use go_upf.Userspace.Parse.Urr.{UrrElement, BarElement}
use go_upf.Userspace.State.{Userspace}
use go_upf.Userspace.Driver.{
  Done, create_pdr, update_pdr, remove_pdr, create_far, update_far, remove_far, create_qer,
  update_qer, remove_qer, create_urr, update_urr, remove_urr, create_bar, update_bar, remove_bar,
  report_usage,
}

-- The methods of `Driver` that change a session's rules, with their arguments.
pub data Operation : Type 0 where
  do_create_pdr do_update_pdr : ℕ → Option (List PdrElement) → Bytes → Operation
  do_create_far do_update_far : ℕ → Option (List FarElement) → Bytes → Operation
  do_create_qer do_update_qer : ℕ → Option (List QerElement) → Bytes → Operation
  do_create_urr do_update_urr : ℕ → Option (List UrrElement) → Bytes → Operation
  do_create_bar do_update_bar : ℕ → Option (List BarElement) → Bytes → Operation
  do_remove_pdr do_remove_far do_remove_qer do_remove_urr do_remove_bar : ℕ → Option ℕ → Operation
  do_report_usage : ℕ → ℕ → List UsaReport → Operation

abbrev pub without_reports : {F : Type 0} → Try (List UsaReport) × Userspace F → Done F
without_reports (fail e, u) = (fail e, u)
without_reports (ok rs, u) = (ok tt, u)

module _ {F : Type 0} (parse_flow : Bytes → Try SdfFilterRule) (now : ℕ) where
  -- The answer and the state after; `none` is a panic of the Go runtime.
  unfoldable pub run : Operation → Userspace F → Option (Done F)
  unfolding create_pdr update_pdr remove_pdr create_far update_far remove_far create_qer update_qer
      remove_qer create_urr update_urr remove_urr create_bar update_bar remove_bar report_usage
  run (do_create_pdr seid els raw) u = some (create_pdr parse_flow seid els raw u)
  run (do_update_pdr seid els raw) u = some (update_pdr parse_flow seid els raw u)
  run (do_create_far seid els raw) u = some (create_far seid els raw u)
  run (do_update_far seid els raw) u = update_far seid els raw u
  run (do_create_qer seid els raw) u = some (create_qer seid els raw u)
  run (do_update_qer seid els raw) u = some (update_qer seid els raw u)
  run (do_create_urr seid els raw) u = some (create_urr now seid els raw u)
  run (do_update_urr seid els raw) u = some (update_urr now seid els raw u)
  run (do_create_bar seid els raw) u = some (create_bar seid els raw u)
  run (do_update_bar seid els raw) u = some (update_bar seid els raw u)
  run (do_remove_pdr seid id) u = some (remove_pdr seid id u)
  run (do_remove_far seid id) u = some (remove_far seid id u)
  run (do_remove_qer seid id) u = some (remove_qer seid id u)
  run (do_remove_urr seid id) u = some (without_reports (remove_urr seid id u))
  run (do_remove_bar seid id) u = some (remove_bar seid id u)
  run (do_report_usage seid id reports) u = some (report_usage seid id reports u)
