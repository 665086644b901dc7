-- ===== src/Pfcp/Sess/Close.antt =====
-- internal/pfcp/node.go, `Close`: the removal of every rule when a session ends. The channels that
-- it closes belong to a session that nothing reaches any more, and are not modelled further.
use go_upf.Base.{ℕ, false, none, some, List, [], ◌∷◌, ◌++◌}
use go_upf.Report.{UsaReport}
use go_upf.Forwarder.{Ie, Driver}
use go_upf.Pfcp.Sess.{Sess, Result, ok, err, keys, remove_pdr}
use go_upf.Pfcp.Sess.Rules.{remove_far, remove_qer, remove_bar, remove_urr}

-- `ie.NewRemoveFAR(ie.NewFARID(id))` and the like, by what the accessors answer on them.
abbrev no_ie : Ie
no_ie = record {
  pdr_id = none;
  far_id = none;
  qer_id = none;
  urr_id = none;
  bar_id = none;
  pdr_children = none;
  method = record { durat = false; volum = false; event = false };
  urr_children = [];
  token = 0;
}

abbrev pub far_ie : ℕ → Ie
far_ie id = record no_ie { far_id = some id }

abbrev pub qer_ie : ℕ → Ie
qer_ie id = record no_ie { qer_id = some id }

abbrev pub urr_ie : ℕ → Ie
urr_ie id = record no_ie { urr_id = some id }

abbrev pub bar_ie : ℕ → Ie
bar_ie id = record no_ie { bar_id = some id }

abbrev pub pdr_ie : ℕ → Ie
pdr_ie id = record no_ie { pdr_id = some id }

-- The reports of a removal, none where it failed.
abbrev pub reports : Result (List UsaReport) → List UsaReport
reports (ok us) = us
reports (err e) = []

module _ {S : Type 0} (d : Driver S) where
  -- An error of a removal is logged, and the loop goes on.
  unfoldable pub remove_fars : Sess → S → List ℕ → Sess × S
  remove_fars s st [] = (s, st)
  remove_fars s st (id ∷ ids) =
      let (r, s', st') = remove_far d s st (far_ie id) in remove_fars s' st' ids

  unfoldable pub remove_qers : Sess → S → List ℕ → Sess × S
  remove_qers s st [] = (s, st)
  remove_qers s st (id ∷ ids) =
      let (r, s', st') = remove_qer d s st (qer_ie id) in remove_qers s' st' ids

  unfoldable pub remove_bars : Sess → S → List ℕ → Sess × S
  remove_bars s st [] = (s, st)
  remove_bars s st (id ∷ ids) =
      let (r, s', st') = remove_bar d s st (bar_ie id) in remove_bars s' st' ids

  unfoldable pub remove_urrs : Sess → S → List ℕ → List UsaReport × Sess × S
  remove_urrs s st [] = ([], s, st)
  remove_urrs s st (id ∷ ids) =
      let (r, s', st') = remove_urr d s st (urr_ie id) in
      let (us, s'', st'') = remove_urrs s' st' ids in (reports r ++ us, s'', st'')

  unfoldable pub remove_pdrs : Sess → S → List ℕ → List UsaReport × Sess × S
  remove_pdrs s st [] = ([], s, st)
  remove_pdrs s st (id ∷ ids) =
      let (r, s', st') = remove_pdr d s st (pdr_ie id) in
      let (us, s'', st'') = remove_pdrs s' st' ids in (reports r ++ us, s'', st'')

  unfoldable pub close : Sess → S → List UsaReport × Sess × S
  unfolding remove_fars remove_qers remove_bars remove_urrs remove_pdrs
  close s st =
      let (s1, st1) = remove_fars s st (keys s.far_ids) in
      let (s2, st2) = remove_qers s1 st1 (keys s1.qer_ids) in
      let (us, s3, st3) = remove_urrs s2 st2 (keys s2.urr_ids) in
      let (s4, st4) = remove_bars s3 st3 (keys s3.bar_ids) in
      let (vs, s5, st5) = remove_pdrs s4 st4 (keys s4.pdr_ids) in (us ++ vs, s5, st5)
