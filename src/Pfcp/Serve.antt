-- ===== src/Pfcp/Serve.antt =====
-- internal/pfcp/report.go: the reports of the forwarder, sent on to the control plane.
pub mod Numbered
pub mod Dropped
pub mod Valid
use go_upf.Base.{
  ℕ, ◌-◌, ◌&&◌, Option, none, some, List, [], ◌∷◌, ◌++◌, String, get_elem?, lookup, ltb, length,
  if◌then◌else◌, nat_eq, set,
}
use go_upf.Report.{
  UsaReport, DldReport, Report, dld, usa, SessReport, UsageIe, usage_ies, act_buff, act_nocp,
}
use go_upf.Pfcp.Sess.{Sess}
use go_upf.Pfcp.Sess.Rules.{urr_seq}
use go_upf.Pfcp.Sess.Queue.{push}
use go_upf.Pfcp.Node.{local_sess}
use go_upf.Pfcp.Server.{Server, downlink_data, usage, send_req_to}

-- The usage reports of a request, each under the next number of its URR.
unfoldable pub numbered_reports : Sess → List UsaReport → List (List UsageIe) × Sess
unfolding urr_seq
numbered_reports s [] = ([], s)
numbered_reports s (r ∷ rs) =
    let (seq, s1) = urr_seq s r.urrid in
    let (ies, s2) = numbered_reports s1 rs in
    elim (lookup r.urrid s.urr_ids) [
      | none ↦ (ies, s2)
      | some info ↦ (usage_ies (record r { urseqn = seq }) info.method info.information ∷ ies, s2)
    ]

module _ {S : Type 0} where
  abbrev pub put_sess : Server S → Sess → Server S
  put_sess sv s = record sv {
    world = record (sv.world) {
      lnode = record (sv.world.lnode) { sess = set sv.world.lnode.sess (s.local_id - 1) (some s) };
    };
  }

  -- `serveDLDReport`.
  unfoldable pub serve_dld_report : Server S → String → ℕ → ℕ → Server S
  unfolding local_sess
  serve_dld_report sv addr seid pdrid = elim (local_sess sv.world.lnode seid) [
    | none ↦ sv
    | some s ↦ send_req_to sv (record { seid = s.remote_id; body = downlink_data pdrid }) addr
  ]

  -- `serveUSAReport`.
  unfoldable pub serve_usa_report : Server S → String → ℕ → List UsaReport → Server S
  unfolding local_sess numbered_reports
  serve_usa_report sv addr seid us = elim (local_sess sv.world.lnode seid) [
    | none ↦ sv
    | some s ↦
        let (ies, s') = numbered_reports s us in
        send_req_to (put_sess sv s') (record { seid = s.remote_id; body = usage ies }) addr
  ]

  abbrev pub hold_back : Server S → ℕ → DldReport → Server S
  hold_back sv seid r = elim (local_sess sv.world.lnode seid) [
    | none ↦ sv
    | some s ↦
        if act_buff r.action && ltb 0 (length r.buf_pkt)
        then put_sess sv (push s r.pdrid r.buf_pkt)
        else sv
  ]

  -- The loop over the reports. A downlink report that does not ask to notify the control plane ends
  -- the whole call, with the usage reports gathered so far.
  unfoldable pub serve_reports : Server S → String → ℕ → List UsaReport → List Report → Server S
  unfolding serve_dld_report serve_usa_report
  serve_reports sv addr seid us [] =
      if ltb 0 (length us) then serve_usa_report sv addr seid us else sv
  serve_reports sv addr seid us (usa r ∷ rs) = serve_reports sv addr seid (us ++ r ∷ []) rs
  serve_reports sv addr seid us (dld r ∷ rs) =
      let held = hold_back sv seid r in
      let rest = serve_reports (serve_dld_report held addr seid r.pdrid) addr seid us rs in
      if act_nocp r.action then rest else held

  -- `ServeReport`. `resolve` is the answer of net.ResolveUDPAddr for a node's name at the PFCP port.
  unfoldable pub serve_report : (String → Option String) → Server S → SessReport → Server S
  unfolding serve_reports local_sess
  serve_report resolve sv sr = elim (local_sess sv.world.lnode sr.seid) [
    | none ↦ sv
    | some s ↦ elim (get_elem? sv.world.nodes s.rnode) [
      | none ↦ sv
      | some n ↦ elim (resolve n.id) [
        | none ↦ sv
        | some addr ↦ serve_reports sv addr sr.seid [] sr.reports
      ]
    ]
  ]
