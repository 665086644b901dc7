-- ===== src/Forwarder/Gtp5g/Rules.antt =====
-- internal/forwarder/gtp5g.go: the operations on rules, and the forwarder as a `Driver`.
use go_upf.Base.{ℕ, Bool, Option, none, some, List, [], ◌∷◌, ◌++◌, Bytes, if◌then◌else◌}
use go_upf.Gtpv1.{has_bit}
use go_upf.Report.{UsaReport, perio}
use go_upf.Perio.{perio_add, perio_del}
use go_upf.Userspace.Rule.{OuterHeaderCreation}
use go_upf.Userspace.Parse.Far.{FarElement, apply_action_el}
use go_upf.Userspace.Parse.Qer.{QerElement}
use go_upf.Userspace.Parse.Urr.{UrrElement, BarElement}
use go_upf.Forwarder.{Ie, Method, Driver}
use go_upf.Forwarder.Gtp5g.Attr.{Constants}
use go_upf.Forwarder.Gtp5g.Flow.{IpAndMask}
use go_upf.Forwarder.Gtp5g.Pdr.{PdrIe, Request, no_request, create_pdr_request, update_pdr_request}
use go_upf.Forwarder.Gtp5g.Far.{action_of, far_request_element, create_far_request}
use go_upf.Forwarder.Gtp5g.Qer.{qer_request}
use go_upf.Forwarder.Gtp5g.Urr.{UrrRequest, create_urr_request, update_urr_request, bar_request}
use go_upf.Forwarder.Gtp5g.Kernel.{
  RuleKind, a_pdr, a_far, a_qer, a_urr, a_bar, NlReport, Gtp5gnl, Handler, Gtp5g, usa_reports,
}
use go_upf.Forwarder.Gtp5g.Apply.{apply_action}
use go_upf.Forwarder.Gtp5g.Query.{query_urr}

-- What go-pfcp decodes from an element, and what the package net, go-gtp5gnl's constants and the
-- parsed outer header offer.
pub record Decoders : Type 0 where
  pub pdr_elements : Ie → Option (List PdrIe)
  pub far_elements : Ie → Option (List FarElement)
  pub qer_elements : Ie → Option (List QerElement)
  pub urr_elements : Ie → Option (List UrrElement)
  pub bar_elements : Ie → Option (List BarElement)
  pub has_teid : OuterHeaderCreation → Bool
  pub has_ipv4 : OuterHeaderCreation → Bool
  pub constants : Constants
  pub everything : IpAndMask
  pub parse_cidr : Bytes → Option IpAndMask
  pub parse_host : Bytes → Option IpAndMask

abbrev pub done : Bool → Option (Unit {0})
done b = if b then some tt else none

abbrev pub reported : Option (List NlReport) → Option (List UsaReport)
reported none = none
reported (some rs) = some (usa_reports rs)

module _ {K H : Type 0} (dec : Decoders) (nl : Gtp5gnl K) (hd : Handler H) where
  -- A method that leaves the channel and the handler alone.
  abbrev pub at_kernel : {A : Type 0} → Gtp5g K H → A × K → A × Gtp5g K H
  at_kernel g (a, k) = (a, record g { kernel = k })

  -- The requests to the kernel, with the errors that they answer.
  abbrev pub to_create : RuleKind → Gtp5g K H → ℕ → Option Request → Option (Unit {0}) × Gtp5g K H
  to_create kind g seid none = (none, g)
  to_create kind g seid (some r) =
      let (b, k) = nl.create_oid kind (record { seid = seid; id = r.id }) r.attrs g.kernel in
      (done b, record g { kernel = k })

  abbrev pub to_update : RuleKind → Gtp5g K H → ℕ → Option Request → Option (Unit {0}) × Gtp5g K H
  to_update kind g seid none = (none, g)
  to_update kind g seid (some r) =
      let (b, k) = nl.update_oid kind (record { seid = seid; id = r.id }) r.attrs g.kernel in
      (done b, record g { kernel = k })

  abbrev pub to_remove : RuleKind → Gtp5g K H → ℕ → Option ℕ → Option (Unit {0}) × Gtp5g K H
  to_remove kind g seid none = (none, g)
  to_remove kind g seid (some id) =
      let (b, k) = nl.remove_oid kind (record { seid = seid; id = id }) g.kernel in
      (done b, record g { kernel = k })

  unfoldable pub create_pdr : Method (Gtp5g K H) (Unit {0})
  unfolding create_pdr_request
  create_pdr g seid ie = to_create a_pdr g seid (
      create_pdr_request dec.constants dec.everything dec.parse_cidr dec.parse_host
        (dec.pdr_elements ie))

  unfoldable pub update_pdr : Method (Gtp5g K H) (Unit {0})
  unfolding update_pdr_request
  update_pdr g seid ie = to_update a_pdr g seid (
      update_pdr_request dec.constants dec.everything dec.parse_cidr dec.parse_host
        (dec.pdr_elements ie))

  unfoldable pub remove_pdr : Method (Gtp5g K H) (Unit {0})
  remove_pdr g seid ie = to_remove a_pdr g seid ie.pdr_id

  unfoldable pub create_far : Method (Gtp5g K H) (Unit {0})
  unfolding create_far_request
  create_far g seid ie =
      to_create a_far g seid (create_far_request dec.has_teid dec.has_ipv4 (dec.far_elements ie))

  -- What one round of UpdateFAR does besides: the action is applied to the FAR read so far.
  abbrev pub applied : ℕ → Request → FarElement → Gtp5g K H → Gtp5g K H
  applied seid r (apply_action_el v) g = elim (action_of v) [
    | none ↦ g
    | some action ↦ apply_action nl hd seid r.id action g
  ]
  applied seid r _ g = g

  -- The loop of `UpdateFAR`: the request, and the state after the actions so far.
  unfoldable pub update_far_loop :
      ℕ → Request → List FarElement → Gtp5g K H → Option Request × Gtp5g K H
  unfolding apply_action
  update_far_loop seid r [] g = (some r, g)
  update_far_loop seid r (x ∷ xs) g = elim (far_request_element dec.has_teid dec.has_ipv4 r x) [
    | none ↦ (none, g)
    | some r' ↦ update_far_loop seid r' xs (applied seid r x g)
  ]

  abbrev pub update_far_with :
      Gtp5g K H → ℕ → Option (List FarElement) → Option (Unit {0}) × Gtp5g K H
  update_far_with g seid none = (none, g)
  update_far_with g seid (some ies) =
      let (r, g') = update_far_loop seid no_request ies g in to_update a_far g' seid r

  unfoldable pub update_far : Method (Gtp5g K H) (Unit {0})
  unfolding update_far_loop
  update_far g seid ie = update_far_with g seid (dec.far_elements ie)

  unfoldable pub remove_far : Method (Gtp5g K H) (Unit {0})
  remove_far g seid ie = to_remove a_far g seid ie.far_id

  unfoldable pub create_qer : Method (Gtp5g K H) (Unit {0})
  unfolding qer_request
  create_qer g seid ie = to_create a_qer g seid (qer_request (dec.qer_elements ie))

  unfoldable pub update_qer : Method (Gtp5g K H) (Unit {0})
  unfolding qer_request
  update_qer g seid ie = to_update a_qer g seid (qer_request (dec.qer_elements ie))

  unfoldable pub remove_qer : Method (Gtp5g K H) (Unit {0})
  remove_qer g seid ie = to_remove a_qer g seid ie.qer_id

  -- `g.ps.AddPeriodReportTimer`, before the kernel is asked.
  abbrev pub with_timer : Gtp5g K H → ℕ → UrrRequest → Gtp5g K H
  with_timer g seid r =
      if has_bit r.rpt_trig perio
      then record g {
        perio_events = g.perio_events ++ perio_add seid r.request.id r.measure_period ∷ [];
      }
      else g

  abbrev pub create_urr_with : Gtp5g K H → ℕ → Option UrrRequest → Option (Unit {0}) × Gtp5g K H
  create_urr_with g seid none = (none, g)
  create_urr_with g seid (some r) = to_create a_urr (with_timer g seid r) seid (some r.request)

  unfoldable pub create_urr : Method (Gtp5g K H) (Unit {0})
  unfolding create_urr_request
  create_urr g seid ie = create_urr_with g seid (create_urr_request (dec.urr_elements ie))

  abbrev pub update_urr_with :
      Gtp5g K H → ℕ → Option UrrRequest → Option (List UsaReport) × Gtp5g K H
  update_urr_with g seid none = (none, g)
  update_urr_with g seid (some r) =
      let (rs, k) =
        nl.update_urr_oid (record { seid = seid; id = r.request.id }) r.request.attrs g.kernel in
      (reported rs, record g { kernel = k })

  unfoldable pub update_urr : Method (Gtp5g K H) (List UsaReport)
  unfolding update_urr_request
  update_urr g seid ie = update_urr_with g seid (update_urr_request (dec.urr_elements ie))

  -- The timer is deleted before the kernel is asked.
  abbrev pub remove_urr_with : Gtp5g K H → ℕ → Option ℕ → Option (List UsaReport) × Gtp5g K H
  remove_urr_with g seid none = (none, g)
  remove_urr_with g seid (some id) =
      let (rs, k) = nl.remove_urr_oid (record { seid = seid; id = id }) g.kernel in
      (
        reported rs,
        record g { kernel = k; perio_events = g.perio_events ++ perio_del seid id ∷ [] },
      )

  unfoldable pub remove_urr : Method (Gtp5g K H) (List UsaReport)
  remove_urr g seid ie = remove_urr_with g seid ie.urr_id

  unfoldable pub create_bar : Method (Gtp5g K H) (Unit {0})
  unfolding bar_request
  create_bar g seid ie = to_create a_bar g seid (bar_request (dec.bar_elements ie))

  unfoldable pub update_bar : Method (Gtp5g K H) (Unit {0})
  unfolding bar_request
  update_bar g seid ie = to_update a_bar g seid (bar_request (dec.bar_elements ie))

  unfoldable pub remove_bar : Method (Gtp5g K H) (Unit {0})
  remove_bar g seid ie = to_remove a_bar g seid ie.bar_id

  -- `Gtp5g` as the forwarder of the PFCP server.
  abbrev pub gtp5g_driver : Driver (Gtp5g K H)
  gtp5g_driver = record {
    create_pdr = create_pdr;
    update_pdr = update_pdr;
    remove_pdr = remove_pdr;
    create_far = create_far;
    update_far = update_far;
    remove_far = remove_far;
    create_qer = create_qer;
    update_qer = update_qer;
    remove_qer = remove_qer;
    create_urr = create_urr;
    update_urr = update_urr;
    remove_urr = remove_urr;
    query_urr = λ g seid urrid. at_kernel g (query_urr nl seid urrid g.kernel);
    create_bar = create_bar;
    update_bar = update_bar;
    remove_bar = remove_bar;
  }
