-- ===== src/Pfcp/Serve/Dropped.antt =====
-- internal/pfcp/report.go: a downlink report without NOCP in a session report.
use go_upf.Base.{
  ℕ, ◌≡◌, refl, ◌&&◌, false, List, [], ◌∷◌, ◌++◌, String, length, ltb, Option-cases, Bool-cases,
  inl, inr,
}
use go_upf.Report.{UsaReport, DldReport, Report, dld, usa, act_nocp, act_buff}
use go_upf.Pfcp.Node.{local_sess}
use go_upf.Pfcp.Server.{Server}
use go_upf.Pfcp.Serve.{hold_back, serve_reports}

abbrev pub usas : List UsaReport → List Report
usas [] = []
usas (u ∷ us) = usa u ∷ usas us

module _ {S : Type 0} where
  hold_back-sent : (sv : Server S) (seid : ℕ) (r : DldReport) → (hold_back sv seid r).sent ≡ sv.sent
  hold_back-sent sv seid r = elim (Option-cases (local_sess sv.world.lnode seid)) [
    | inl e ↦ rw (e, hold_back) refl
    | inr (s, e) ↦ elim (Bool-cases (act_buff r.action && ltb 0 (length r.buf_pkt))) [
      | inl b ↦ rw (e, hold_back) (rw b refl)
      | inr b ↦ rw (e, hold_back) (rw b refl)
    ]
  ]

  -- Where a downlink report without NOCP follows usage reports, nothing is sent to the control
  -- plane: neither those usage reports nor anything of the reports that come after it.
  pub serve_reports-drops :
      (us : List UsaReport) (r : DldReport) (rs : List Report) (sv : Server S) (addr : String)
      (seid : ℕ) (gathered : List UsaReport)
      → act_nocp r.action ≡ false
      → (serve_reports sv addr seid gathered (usas us ++ dld r ∷ rs)).sent ≡ sv.sent
  unfolding serve_reports
  serve_reports-drops [] r rs sv addr seid gathered h = rw h (hold_back-sent sv seid r)
  serve_reports-drops (u ∷ us) r rs sv addr seid gathered h =
      serve_reports-drops us r rs sv addr seid (gathered ++ u ∷ []) h
