-- ===== src/Pfcp/Session/SameId.antt =====
-- internal/pfcp/node.go: a session's local identifier under the operations on FARs, QERs, URRs and
-- BARs.
pub mod Modify
use go_upf.Base.{
  ℕ, insert, delete, ◌≡◌, refl, sym, ap, ◌∙◌, Bool, true, false, Option, none, some, List, [], ◌∷◌,
  ◌++◌, lookup, arith, if◌then◌else◌, Option-cases, Bool-cases, inl, inr, nat_eq, ltb, ◌==◌, ◌-◌,
}
use go_upf.Report.{UsaReport, termr, immer}
use go_upf.Forwarder.{Ie, Driver}
use go_upf.Pfcp.Sess.{
  Sess, IdSet, UrrInfo, Out, err, undecodable, not_found, Error, create_pdr, reply, reply_then,
  reply_reports, keys, dropped, diassociate_urr, diassociate_all, update_pdr, remove_pdr, has,
}
use go_upf.Pfcp.Sess.Rules.{
  create_far, update_far, remove_far, create_qer, update_qer, remove_qer, create_bar, update_bar,
  remove_bar, create_urr, update_urr, remove_urr, query_urr, urr_seq,
}
use go_upf.Pfcp.Sess.Close.{reports}
use go_upf.Pfcp.Sess.Queue.{push}
use go_upf.Pfcp.Session.{ModificationRequest, optional, each, collect}
use go_upf.Pfcp.Session.Modify.{modify, usage_reports}
use go_upf.Pfcp.Serve.{numbered_reports}

module _ {S : Type 0} where
  abbrev KeepsId : {A : Type 0} → (Sess → S → Ie → Out S A) → Type 0
  KeepsId op = (s : Sess) (st : S) (ie : Ie) → (op s st ie).1.local_id ≡ s.local_id

  reply-id : {A : Type 0} (s : Sess) (r : Option A × S) → (reply s r).1.local_id ≡ s.local_id
  reply-id s (none, st) = refl
  reply-id s (some a, st) = refl

  reply_then-id :
      {A : Type 0} (s s' : Sess) (r : Option A × S)
      → s'.local_id ≡ s.local_id
      → (reply_then s s' r).1.local_id ≡ s.local_id
  reply_then-id s s' (none, st) e = refl
  reply_then-id s s' (some a, st) e = e

  reply_reports-id :
      (bit : ℕ) (s : Sess) (r : Option (List UsaReport) × S)
      → (reply_reports bit s r).1.local_id ≡ s.local_id
  reply_reports-id bit s (none, st) = refl
  reply_reports-id bit s (some a, st) = refl

  -- An element that decodes, and then a rule that is found.
  decoded-id :
      {A : Type 0} (s : Sess) (st : S) (o : Option ℕ) (f : ℕ → Out S A)
      → ((id : ℕ) → (f id).1.local_id ≡ s.local_id)
      → (elim o as (λ _. Out S A) [ none ↦ (err undecodable, s, st) | some id ↦ f id ]).1.local_id
        ≡ s.local_id
  decoded-id s st none f h = refl
  decoded-id s st (some id) f h = h id

  found-id :
      {A V : Type 0} (s : Sess) (st : S) (o : Option V) (f : V → Out S A)
      → ((v : V) → (f v).1.local_id ≡ s.local_id)
      → (elim o as (λ _. Out S A) [ none ↦ (err not_found, s, st) | some v ↦ f v ]).1.local_id
        ≡ s.local_id
  found-id s st none f h = refl
  found-id s st (some v) f h = h v

  each-id :
      {A : Type 0} (op : Sess → S → Ie → Out S A) (x : Sess × S) (ies : List Ie)
      → KeepsId op
      → (each op x ies).0.local_id ≡ x.0.local_id
  each-id op x [] k = refl
  each-id op x (ie ∷ ies) k =
      let (_, s', st') = op x.0 x.1 ie in each-id op (s', st') ies k ∙ k x.0 x.1 ie

  collect-id :
      (op : Sess → S → Ie → Out S (List UsaReport)) (x : List UsaReport × Sess × S) (ies : List Ie)
      → KeepsId op
      → (collect op x ies).1.local_id ≡ x.1.local_id
  collect-id op x [] k = refl
  collect-id op x (ie ∷ ies) k =
      let (r, s', st') = op x.1 x.2 ie in
      collect-id op (x.0 ++ reports r, s', st') ies k ∙ k x.1 x.2 ie

  module _ (d : Driver S) where
    create_far-KeepsId : KeepsId (create_far d)
    unfolding create_far
    create_far-KeepsId s st ie =
        decoded-id s st ie.far_id _ (λ id. reply-id _ (d.create_far st s.local_id ie))

    create_qer-KeepsId : KeepsId (create_qer d)
    unfolding create_qer
    create_qer-KeepsId s st ie =
        decoded-id s st ie.qer_id _ (λ id. reply-id _ (d.create_qer st s.local_id ie))

    create_bar-KeepsId : KeepsId (create_bar d)
    unfolding create_bar
    create_bar-KeepsId s st ie =
        decoded-id s st ie.bar_id _ (λ id. reply-id _ (d.create_bar st s.local_id ie))

    create_urr-KeepsId : KeepsId (create_urr d)
    unfolding create_urr
    create_urr-KeepsId s st ie =
        decoded-id s st ie.urr_id _ (λ id. reply-id _ (d.create_urr st s.local_id ie))

    update_far-KeepsId : KeepsId (update_far d)
    unfolding update_far
    update_far-KeepsId s st ie = decoded-id s st ie.far_id _ (λ id.
        found-id s st (lookup id s.far_ids) _ (λ _. reply-id _ (d.update_far st s.local_id ie)))

    update_qer-KeepsId : KeepsId (update_qer d)
    unfolding update_qer
    update_qer-KeepsId s st ie = decoded-id s st ie.qer_id _ (λ id.
        found-id s st (lookup id s.qer_ids) _ (λ _. reply-id _ (d.update_qer st s.local_id ie)))

    update_bar-KeepsId : KeepsId (update_bar d)
    unfolding update_bar
    update_bar-KeepsId s st ie = decoded-id s st ie.bar_id _ (λ id.
        found-id s st (lookup id s.bar_ids) _ (λ _. reply-id _ (d.update_bar st s.local_id ie)))

    update_urr-KeepsId : KeepsId (update_urr d)
    unfolding update_urr
    update_urr-KeepsId s st ie = decoded-id s st ie.urr_id _ (λ id.
        found-id s st (lookup id s.urr_ids) _ (λ _. reply-id _ (d.update_urr st s.local_id ie)))

    remove_far-KeepsId : KeepsId (remove_far d)
    unfolding remove_far
    remove_far-KeepsId s st ie = decoded-id s st ie.far_id _ (λ id.
        found-id s st (lookup id s.far_ids) _ (λ _.
          reply_then-id s (record s { far_ids = delete id s.far_ids })
            (d.remove_far st s.local_id ie) refl))

    remove_qer-KeepsId : KeepsId (remove_qer d)
    unfolding remove_qer
    remove_qer-KeepsId s st ie = decoded-id s st ie.qer_id _ (λ id.
        found-id s st (lookup id s.qer_ids) _ (λ _.
          reply_then-id s (record s { qer_ids = delete id s.qer_ids })
            (d.remove_qer st s.local_id ie) refl))

    remove_bar-KeepsId : KeepsId (remove_bar d)
    unfolding remove_bar
    remove_bar-KeepsId s st ie = decoded-id s st ie.bar_id _ (λ id.
        found-id s st (lookup id s.bar_ids) _ (λ _.
          reply_then-id s (record s { bar_ids = delete id s.bar_ids })
            (d.remove_bar st s.local_id ie) refl))

    remove_urr-KeepsId : KeepsId (remove_urr d)
    unfolding remove_urr
    remove_urr-KeepsId s st ie = decoded-id s st ie.urr_id _ (λ id.
        found-id s st (lookup id s.urr_ids) _ (λ info.
          reply_reports-id termr
            (record s { urr_ids = insert id (record info { removed = true }) s.urr_ids })
            (d.remove_urr st s.local_id ie)))

    query_urr-KeepsId : KeepsId (query_urr d)
    unfolding query_urr
    query_urr-KeepsId s st ie = decoded-id s st ie.urr_id _ (λ id.
        found-id s st (lookup id s.urr_ids) _
          (λ _. reply_reports-id immer s (d.query_urr st s.local_id id)))
