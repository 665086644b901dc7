-- ===== src/Pfcp/Session/SameId/Modify.antt =====
-- internal/pfcp/node.go and session.go: a session's local identifier under the operations on PDRs, a
-- whole modification, and the numbering of reports.
use go_upf.Base.{
  ℕ, ◌≡◌, refl, ◌∙◌, Option, none, some, List, [], ◌∷◌, lookup, Option-cases, Bool-cases, inl, inr,
  nat_eq, ltb, ◌==◌, ◌-◌,
}
use go_upf.Report.{UsaReport}
use go_upf.Forwarder.{Driver}
use go_upf.Pfcp.Sess.{
  Sess, IdSet, create_pdr, keys, dropped, final_report, diassociate_urr, diassociate_all,
  update_pdr, remove_pdr, update_relations, remove_relations, pdr_id_of, set_of, urr_ids_of,
}
use go_upf.Pfcp.Sess.Rules.{
  create_far, update_far, remove_far, create_qer, update_qer, remove_qer, create_bar, update_bar,
  remove_bar, create_urr, update_urr, remove_urr, query_urr, urr_seq,
}
use go_upf.Pfcp.Sess.Queue.{push}
use go_upf.Pfcp.Session.{ModificationRequest, optional}
use go_upf.Pfcp.Session.Modify.{modify, usage_reports}
use go_upf.Pfcp.Session.SameId.{
  KeepsId, reply-id, decoded-id, found-id, each-id, collect-id, create_far-KeepsId,
  create_qer-KeepsId, create_bar-KeepsId, create_urr-KeepsId, update_far-KeepsId,
  update_qer-KeepsId, update_bar-KeepsId, update_urr-KeepsId, remove_far-KeepsId,
  remove_qer-KeepsId, remove_bar-KeepsId, remove_urr-KeepsId, query_urr-KeepsId,
}
use go_upf.Pfcp.Serve.{numbered_reports}

urr_seq-id : (s : Sess) (u : ℕ) → (urr_seq s u).1.local_id ≡ s.local_id
unfolding urr_seq
urr_seq-id s u = elim (Option-cases (lookup u s.urr_ids)) [
  | inl e ↦ rw (e, urr_seq) refl
  | inr (info, e) ↦ rw (e, urr_seq) refl
]

pub numbered_reports-id :
    (rs : List UsaReport) (s : Sess) → (numbered_reports s rs).1.local_id ≡ s.local_id
unfolding numbered_reports
numbered_reports-id [] s = refl
numbered_reports-id (r ∷ rs) s = elim (Option-cases (lookup r.urrid s.urr_ids)) [
  | inl e ↦
      rw (e, numbered_reports) (numbered_reports-id rs (urr_seq s r.urrid).1 ∙ urr_seq-id s r.urrid)
  | inr (info, e) ↦
      rw (e, numbered_reports) (numbered_reports-id rs (urr_seq s r.urrid).1 ∙ urr_seq-id s r.urrid)
]

pub usage_reports-id :
    (rs : List UsaReport) (s : Sess) → (usage_reports s rs).1.local_id ≡ s.local_id
unfolding usage_reports
usage_reports-id [] s = refl
usage_reports-id (r ∷ rs) s = elim (Option-cases (lookup r.urrid s.urr_ids)) [
  | inl e ↦ rw (e, usage_reports) (usage_reports-id rs s)
  | inr (info, e) ↦ elim (Bool-cases info.removed) [
    | inl k ↦ rw (e, usage_reports) (rw k (usage_reports-id rs _ ∙ urr_seq-id s r.urrid))
    | inr k ↦ rw (e, usage_reports) (rw k (usage_reports-id rs _ ∙ urr_seq-id s r.urrid))
  ]
]

pub push-id : (s : Sess) (pdr : ℕ) (p : List ℕ) → (push s pdr p).local_id ≡ s.local_id
unfolding push
push-id s pdr p = refl

module _ {S : Type 0} (d : Driver S) where
  final_report-id :
      (s : Sess) (r : Option (List UsaReport) × S) → (final_report d s r).1.local_id ≡ s.local_id
  final_report-id s (none, st) = refl
  final_report-id s (some us, st) = refl

  diassociate_urr-id :
      (s : Sess) (st : S) (u : ℕ) → (diassociate_urr d s st u).1.local_id ≡ s.local_id
  unfolding diassociate_urr
  diassociate_urr-id s st u = elim (Option-cases (lookup u s.urr_ids)) [
    | inl e ↦ rw (e, diassociate_urr) refl
    | inr (info, e) ↦ elim (Bool-cases (ltb 0 info.ref_pdr_num)) [
      | inl k ↦ elim (Bool-cases (info.ref_pdr_num - 1 == 0)) [
        | inl z ↦
            rw (e, diassociate_urr) (rw k (rw z (final_report-id _ (d.query_urr st s.local_id u))))
        | inr z ↦ rw (e, diassociate_urr) (rw k (rw z refl))
      ]
      | inr k ↦ rw (e, diassociate_urr) (rw k refl)
    ]
  ]

  diassociate_all-id :
      (us : List ℕ) (s : Sess) (st : S) → (diassociate_all d s st us).1.local_id ≡ s.local_id
  unfolding diassociate_all
  diassociate_all-id [] s st = refl
  diassociate_all-id (u ∷ us) s st =
      let (_, s', st') = diassociate_urr d s st u in
      diassociate_all-id us s' st' ∙ diassociate_urr-id s st u

  update_relations-id :
      (id : ℕ) (old new : IdSet) (s : Sess) (r : Option (Unit {0}) × S)
      → (update_relations d id old new s r).1.local_id ≡ s.local_id
  update_relations-id id old new s (none, st) = refl
  update_relations-id id old new s (some a, st) = diassociate_all-id (dropped (keys old) new) s st

  remove_relations-id :
      (id : ℕ) (old : IdSet) (s : Sess) (r : Option (Unit {0}) × S)
      → (remove_relations d id old s r).1.local_id ≡ s.local_id
  remove_relations-id id old s (none, st) = refl
  remove_relations-id id old s (some a, st) = diassociate_all-id (keys old) s st

  create_pdr-KeepsId : KeepsId (create_pdr d)
  unfolding create_pdr
  create_pdr-KeepsId s st ie = elim (Option-cases ie.pdr_children) [
    | inl e ↦ rw (e, create_pdr) refl
    | inr (cs, e) ↦ rw (e, create_pdr) (reply-id _ (d.create_pdr st s.local_id ie))
  ]

  update_pdr-KeepsId : KeepsId (update_pdr d)
  unfolding update_pdr
  update_pdr-KeepsId s st ie = elim (Option-cases ie.pdr_children) [
    | inl e ↦ rw (e, update_pdr) refl
    | inr (cs, e) ↦
        rw (e, update_pdr)
          (found-id s st (lookup (pdr_id_of 0 cs) s.pdr_ids) _ (λ old.
            update_relations-id (pdr_id_of 0 cs) old (set_of [] (urr_ids_of cs)) s
              (d.update_pdr st s.local_id ie)))
  ]

  remove_pdr-KeepsId : KeepsId (remove_pdr d)
  unfolding remove_pdr
  remove_pdr-KeepsId s st ie = decoded-id s st ie.pdr_id _ (λ id.
      found-id s st (lookup id s.pdr_ids) _
        (λ old. remove_relations-id id old s (d.remove_pdr st s.local_id ie)))

  pub modify-id :
      (req : ModificationRequest) (s : Sess) (st : S)
      → (modify d req (s, st)).1.local_id ≡ s.local_id
  unfolding modify
  modify-id req s st =
      collect-id (query_urr d) _ req.query_urrs (query_urr-KeepsId d)
      ∙ (collect-id (update_pdr d) _ req.update_pdrs update_pdr-KeepsId
          ∙ (each-id (update_bar d) _ (optional req.update_bar) (update_bar-KeepsId d)
              ∙ (collect-id (update_urr d) _ req.update_urrs (update_urr-KeepsId d)
                  ∙ (each-id (update_qer d) _ req.update_qers (update_qer-KeepsId d)
                      ∙ (each-id (update_far d) _ req.update_fars (update_far-KeepsId d)
                          ∙ (collect-id (remove_pdr d) _ req.remove_pdrs remove_pdr-KeepsId
                              ∙ (each-id (remove_bar d) _ (optional req.remove_bar)
                                    (remove_bar-KeepsId d)
                                  ∙ (collect-id (remove_urr d) _ req.remove_urrs
                                        (remove_urr-KeepsId d)
                                      ∙ (each-id (remove_qer d) _ req.remove_qers
                                            (remove_qer-KeepsId d)
                                          ∙ (each-id (remove_far d) _ req.remove_fars
                                                (remove_far-KeepsId d)
                                              ∙ (each-id (create_pdr d) _ req.create_pdrs
                                                    create_pdr-KeepsId
                                                  ∙ (each-id (create_bar d) _
                                                        (optional req.create_bar)
                                                        (create_bar-KeepsId d)
                                                      ∙ (each-id (create_urr d) _ req.create_urrs
                                                            (create_urr-KeepsId d)
                                                          ∙ (each-id (create_qer d) _
                                                            req.create_qers (create_qer-KeepsId d)
                                                            ∙ each-id (create_far d) (s, st)
                                                            req.create_fars
                                                            (create_far-KeepsId d)))))))))))))))
