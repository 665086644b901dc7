-- ===== src/Pfcp/Serve/Valid.antt =====
-- internal/pfcp/report.go: serving reports, and the invariant of the table of sessions.
use go_upf.Base.{
  ℕ, ◌&&◌, Option, List, [], ◌∷◌, ◌++◌, String, length, get_elem?, Option-cases, Bool-cases, inl,
  inr, string_eq, pair_eq, nat_eq, ltb,
}
use go_upf.Report.{UsaReport, DldReport, Report, dld, usa, SessReport, act_buff, act_nocp}
use go_upf.Forwarder.{Driver}
use go_upf.Pfcp.Sess.Queue.{push}
use go_upf.Pfcp.Node.{local_sess}
use go_upf.Pfcp.Node.Store.{put-IsValid}
use go_upf.Pfcp.Server.{Server, send_req_to}
use go_upf.Pfcp.Session.Valid.{HasValidTable}
use go_upf.Pfcp.Session.SameId.Modify.{numbered_reports-id, push-id}
use go_upf.Pfcp.Serve.{
  numbered_reports, serve_dld_report, serve_usa_report, hold_back, serve_reports, serve_report,
}

module _ {S : Type 0} (d : Driver S) where
  serve_dld_report-HasValidTable :
      (sv : Server S) (addr : String) (seid pdrid : ℕ)
      → HasValidTable d sv
      → HasValidTable d (serve_dld_report sv addr seid pdrid)
  unfolding serve_dld_report send_req_to
  serve_dld_report-HasValidTable sv addr seid pdrid v =
      elim (Option-cases (local_sess sv.world.lnode seid)) [
        | inl e ↦ rw (e, serve_dld_report) v
        | inr (s, e) ↦ rw (e, serve_dld_report) v
      ]

  serve_usa_report-HasValidTable :
      (sv : Server S) (addr : String) (seid : ℕ) (us : List UsaReport)
      → HasValidTable d sv
      → HasValidTable d (serve_usa_report sv addr seid us)
  unfolding serve_usa_report send_req_to
  serve_usa_report-HasValidTable sv addr seid us v =
      elim (Option-cases (local_sess sv.world.lnode seid)) [
        | inl e ↦ rw (e, serve_usa_report) v
        | inr (s, e) ↦
            rw (e, serve_usa_report)
              (put-IsValid sv.world.lnode seid s (numbered_reports s us).1 v e
                (numbered_reports-id us s))
      ]

  hold_back-HasValidTable :
      (sv : Server S) (seid : ℕ) (r : DldReport)
      → HasValidTable d sv
      → HasValidTable d (hold_back sv seid r)
  hold_back-HasValidTable sv seid r v = elim (Option-cases (local_sess sv.world.lnode seid)) [
    | inl e ↦ rw (e, hold_back) v
    | inr (s, e) ↦ elim (Bool-cases (act_buff r.action && ltb 0 (length r.buf_pkt))) [
      | inl b ↦
          rw (e, hold_back)
            (rw b (
              put-IsValid sv.world.lnode seid s (push s r.pdrid r.buf_pkt) v e
                (push-id s r.pdrid r.buf_pkt)))
      | inr b ↦ rw (e, hold_back) (rw b v)
    ]
  ]

  serve_reports-HasValidTable :
      (rs : List Report) (sv : Server S) (addr : String) (seid : ℕ) (us : List UsaReport)
      → HasValidTable d sv
      → HasValidTable d (serve_reports sv addr seid us rs)
  unfolding serve_reports
  serve_reports-HasValidTable [] sv addr seid us v = elim (Bool-cases (ltb 0 (length us))) [
    | inl e ↦ rw e (serve_usa_report-HasValidTable sv addr seid us v)
    | inr e ↦ rw e v
  ]
  serve_reports-HasValidTable (usa r ∷ rs) sv addr seid us v =
      serve_reports-HasValidTable rs sv addr seid (us ++ r ∷ []) v
  serve_reports-HasValidTable (dld r ∷ rs) sv addr seid us v =
      let held = hold_back-HasValidTable sv seid r v in
      elim (Bool-cases (act_nocp r.action)) [
        | inl e ↦ rw e (
            serve_reports-HasValidTable rs _ addr seid us
              (serve_dld_report-HasValidTable (hold_back sv seid r) addr seid r.pdrid held))
        | inr e ↦ rw e held
      ]

  pub serve_report-HasValidTable :
      (resolve : String → Option String) (sv : Server S) (sr : SessReport)
      → HasValidTable d sv
      → HasValidTable d (serve_report resolve sv sr)
  unfolding serve_report
  serve_report-HasValidTable resolve sv sr v =
      elim (Option-cases (local_sess sv.world.lnode sr.seid)) [
        | inl e ↦ rw (e, serve_report) v
        | inr (s, e) ↦ elim (Option-cases (get_elem? sv.world.nodes s.rnode)) [
          | inl m ↦ rw (e, serve_report) (rw m v)
          | inr (n, m) ↦ elim (Option-cases (resolve n.id)) [
            | inl a ↦ rw (e, serve_report) (rw m (rw a v))
            | inr (addr, a) ↦
                rw (e, serve_report)
                  (rw m (rw a (serve_reports-HasValidTable sr.reports sv addr sr.seid [] v)))
          ]
        ]
      ]
