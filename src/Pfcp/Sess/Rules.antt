-- ===== src/Pfcp/Sess/Rules.antt =====
-- internal/pfcp/node.go: the operations of Sess on FARs, QERs, URRs and BARs.
use go_upf.Base.{
  ℕ, ◌+◌, ◌%◌, ◌^◌, true, false, none, some, List, [], ◌∷◌, lookup, insert, delete, nat_eq,
}
use go_upf.Report.{MeasureInformation, UsaReport, termr, immer}
use go_upf.Forwarder.{Ie, UrrChild, measurement_method, measurement_information, Driver}
use go_upf.Pfcp.Sess.{
  Sess, UrrInfo, err, undecodable, not_found, Out, reply, reply_then, reply_reports,
}

-- `HasMBQE` and the like on the empty element.
abbrev no_information : MeasureInformation
no_information = record { mbqe = false; inam = false; radi = false; istm = false; mnop = false }

abbrev pub first_information : List UrrChild → MeasureInformation
first_information [] = no_information
first_information (measurement_information i ∷ cs) = i
first_information (measurement_method m ∷ cs) = first_information cs

abbrev pub apply_children : UrrInfo → List UrrChild → UrrInfo
apply_children info [] = info
apply_children info (measurement_method m ∷ cs) = apply_children (record info { method = m }) cs
apply_children info (measurement_information i ∷ cs) =
    apply_children (record info { information = i }) cs

module _ {S : Type 0} (d : Driver S) where
  unfoldable pub create_far : Sess → S → Ie → Out S (Unit {0})
  create_far s st ie = elim ie.far_id [
    | none ↦ (err undecodable, s, st)
    | some id ↦
        reply (record s { far_ids = insert id tt s.far_ids }) (d.create_far st s.local_id ie)
  ]

  unfoldable pub update_far : Sess → S → Ie → Out S (Unit {0})
  update_far s st ie = elim ie.far_id [
    | none ↦ (err undecodable, s, st)
    | some id ↦ elim (lookup id s.far_ids) [
      | none ↦ (err not_found, s, st)
      | some _ ↦ reply s (d.update_far st s.local_id ie)
    ]
  ]

  unfoldable pub remove_far : Sess → S → Ie → Out S (Unit {0})
  remove_far s st ie = elim ie.far_id [
    | none ↦ (err undecodable, s, st)
    | some id ↦ elim (lookup id s.far_ids) [
      | none ↦ (err not_found, s, st)
      | some _ ↦
          reply_then s (record s { far_ids = delete id s.far_ids }) (d.remove_far st s.local_id ie)
    ]
  ]

  unfoldable pub create_qer : Sess → S → Ie → Out S (Unit {0})
  create_qer s st ie = elim ie.qer_id [
    | none ↦ (err undecodable, s, st)
    | some id ↦
        reply (record s { qer_ids = insert id tt s.qer_ids }) (d.create_qer st s.local_id ie)
  ]

  unfoldable pub update_qer : Sess → S → Ie → Out S (Unit {0})
  update_qer s st ie = elim ie.qer_id [
    | none ↦ (err undecodable, s, st)
    | some id ↦ elim (lookup id s.qer_ids) [
      | none ↦ (err not_found, s, st)
      | some _ ↦ reply s (d.update_qer st s.local_id ie)
    ]
  ]

  unfoldable pub remove_qer : Sess → S → Ie → Out S (Unit {0})
  remove_qer s st ie = elim ie.qer_id [
    | none ↦ (err undecodable, s, st)
    | some id ↦ elim (lookup id s.qer_ids) [
      | none ↦ (err not_found, s, st)
      | some _ ↦
          reply_then s (record s { qer_ids = delete id s.qer_ids }) (d.remove_qer st s.local_id ie)
    ]
  ]

  unfoldable pub create_bar : Sess → S → Ie → Out S (Unit {0})
  create_bar s st ie = elim ie.bar_id [
    | none ↦ (err undecodable, s, st)
    | some id ↦
        reply (record s { bar_ids = insert id tt s.bar_ids }) (d.create_bar st s.local_id ie)
  ]

  unfoldable pub update_bar : Sess → S → Ie → Out S (Unit {0})
  update_bar s st ie = elim ie.bar_id [
    | none ↦ (err undecodable, s, st)
    | some id ↦ elim (lookup id s.bar_ids) [
      | none ↦ (err not_found, s, st)
      | some _ ↦ reply s (d.update_bar st s.local_id ie)
    ]
  ]

  unfoldable pub remove_bar : Sess → S → Ie → Out S (Unit {0})
  remove_bar s st ie = elim ie.bar_id [
    | none ↦ (err undecodable, s, st)
    | some id ↦ elim (lookup id s.bar_ids) [
      | none ↦ (err not_found, s, st)
      | some _ ↦
          reply_then s (record s { bar_ids = delete id s.bar_ids }) (d.remove_bar st s.local_id ie)
    ]
  ]

  unfoldable pub create_urr : Sess → S → Ie → Out S (Unit {0})
  create_urr s st ie = elim ie.urr_id [
    | none ↦ (err undecodable, s, st)
    | some id ↦
        let info : UrrInfo = record {
          removed = false;
          seqn = 0;
          method = ie.method;
          information = first_information ie.urr_children;
          ref_pdr_num = 0;
        } in
        reply (record s { urr_ids = insert id info s.urr_ids }) (d.create_urr st s.local_id ie)
  ]

  unfoldable pub update_urr : Sess → S → Ie → Out S (List UsaReport)
  update_urr s st ie = elim ie.urr_id [
    | none ↦ (err undecodable, s, st)
    | some id ↦ elim (lookup id s.urr_ids) [
      | none ↦ (err not_found, s, st)
      | some info ↦
          reply (record s { urr_ids = insert id (apply_children info ie.urr_children) s.urr_ids })
            (d.update_urr st s.local_id ie)
    ]
  ]

  unfoldable pub remove_urr : Sess → S → Ie → Out S (List UsaReport)
  remove_urr s st ie = elim ie.urr_id [
    | none ↦ (err undecodable, s, st)
    | some id ↦ elim (lookup id s.urr_ids) [
      | none ↦ (err not_found, s, st)
      | some info ↦
          reply_reports termr
            (record s { urr_ids = insert id (record info { removed = true }) s.urr_ids })
            (d.remove_urr st s.local_id ie)
    ]
  ]

  unfoldable pub query_urr : Sess → S → Ie → Out S (List UsaReport)
  query_urr s st ie = elim ie.urr_id [
    | none ↦ (err undecodable, s, st)
    | some id ↦ elim (lookup id s.urr_ids) [
      | none ↦ (err not_found, s, st)
      | some _ ↦ reply_reports immer s (d.query_urr st s.local_id id)
    ]
  ]

-- `URRSeq`: the number of the next report of a URR.
unfoldable pub urr_seq : Sess → ℕ → ℕ × Sess
urr_seq s id = elim (lookup id s.urr_ids) [
  | none ↦ (0, s)
  | some info ↦ (
    info.seqn,
    record s { urr_ids = insert id (record info { seqn = (info.seqn + 1) % 2 ^ 32 }) s.urr_ids },
  )
]
