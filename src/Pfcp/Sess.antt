-- ===== src/Pfcp/Sess.antt =====
-- internal/pfcp/node.go, the type Sess: the rules of one PFCP session, each passed on to the driver,
-- and the count of the PDRs that use a URR.
pub mod Rules
pub mod Close
pub mod RefCount
pub mod Counted
pub mod Update
pub mod Queue
pub mod Fifo
use go_upf.Base.{
  ℕ, suc, ◌+◌, ◌-◌, ◌%◌, ◌^◌, Bool, true, false, Option, none, some, List, [], ◌∷◌, ◌++◌, map,
  Assoc, lookup, insert, delete, ltb, ◌==◌, if◌then◌else◌, is_some, nat_eq,
}
use go_upf.Report.{MeasureMethod, MeasureInformation, UsaReport, set_bit, termr, immer}
use go_upf.Forwarder.{
  Ie, PdrChild, pdr_id_child, urr_id_child, pdi_child, other_child, UrrChild, measurement_method,
  measurement_information, Driver, Method,
}

-- `map[uint32]struct{}`.
abbrev pub IdSet : Type 0
IdSet = Assoc ℕ (Unit {0})

abbrev pub has : IdSet → ℕ → Bool
has ids id = is_some (lookup id ids)

pub record UrrInfo : Type 0 where
  pub removed : Bool
  pub seqn : ℕ  -- uint32
  pub method : MeasureMethod
  pub information : MeasureInformation
  pub ref_pdr_num : ℕ  -- uint16

pub record Sess : Type 0 where
  pub rnode : ℕ  -- the remote node that it points to
  pub local_id : ℕ
  pub remote_id : ℕ
  pub pdr_ids : Assoc ℕ IdSet  -- PDRInfo.RelatedURRIDs
  pub far_ids : IdSet
  pub qer_ids : IdSet
  pub urr_ids : Assoc ℕ UrrInfo
  pub bar_ids : IdSet
  pub q : Assoc ℕ (List (List ℕ))  -- a channel by what it holds, oldest first
  pub qlen : ℕ

pub data Error : Type 0 where
  undecodable not_found refused : Error

pub data Result (A : Type 0) : Type 0 where
  ok : A → Result A
  err : Error → Result A

-- What an operation returns, with the session and the driver's state that it leaves.
abbrev pub Out : Type 0 → Type 0 → Type 0
Out S A = Result A × Sess × S

abbrev pub reply : {S A : Type 0} → Sess → Option A × S → Out S A
reply s (none, st) = (err refused, s, st)
reply s (some a, st) = (ok a, s, st)

-- The same, where the session changes only if the driver accepts.
abbrev pub reply_then : {S A : Type 0} → Sess → Sess → Option A × S → Out S A
reply_then s s' (none, st) = (err refused, s, st)
reply_then s s' (some a, st) = (ok a, s', st)

abbrev pub with_flag : ℕ → List UsaReport → List UsaReport
with_flag bit [] = []
with_flag bit (r ∷ rs) = record r { usar_trigger = set_bit r.usar_trigger bit } ∷ with_flag bit rs

abbrev pub reply_reports :
    {S : Type 0} → ℕ → Sess → Option (List UsaReport) × S → Out S (List UsaReport)
reply_reports bit s (none, st) = (err refused, s, st)
reply_reports bit s (some us, st) = (ok (with_flag bit us), s, st)

-- `i.Type == ie.PDRID`: the last one that decodes counts, and 0 stands where there is none.
abbrev pub pdr_id_of : ℕ → List PdrChild → ℕ
pdr_id_of id [] = id
pdr_id_of id (pdr_id_child (some v) ∷ cs) = pdr_id_of v cs
pdr_id_of id (pdr_id_child none ∷ cs) = pdr_id_of id cs
pdr_id_of id (urr_id_child v ∷ cs) = pdr_id_of id cs
pdr_id_of id (pdi_child v ∷ cs) = pdr_id_of id cs
pdr_id_of id (other_child ∷ cs) = pdr_id_of id cs

abbrev pub urr_ids_of : List PdrChild → List ℕ
urr_ids_of [] = []
urr_ids_of (urr_id_child (some v) ∷ cs) = v ∷ urr_ids_of cs
urr_ids_of (urr_id_child none ∷ cs) = urr_ids_of cs
urr_ids_of (pdr_id_child v ∷ cs) = urr_ids_of cs
urr_ids_of (pdi_child v ∷ cs) = urr_ids_of cs
urr_ids_of (other_child ∷ cs) = urr_ids_of cs

abbrev pub set_of : IdSet → List ℕ → IdSet
set_of acc [] = acc
set_of acc (v ∷ vs) = set_of (insert v tt acc) vs

-- `urrInfo.refPdrNum++`, where the URR is known.
abbrev pub bump : Assoc ℕ UrrInfo → ℕ → Assoc ℕ UrrInfo
bump m v = elim (lookup v m) [
  | none ↦ m
  | some info ↦ insert v (record info { ref_pdr_num = (info.ref_pdr_num + 1) % 2 ^ 16 }) m
]

abbrev pub bump_all : Assoc ℕ UrrInfo → List ℕ → Assoc ℕ UrrInfo
bump_all m [] = m
bump_all m (v ∷ vs) = bump_all (bump m v) vs

abbrev pub keys : {V : Type 0} → Assoc ℕ V → List ℕ
keys [] = []
keys ((k, v) ∷ m) = k ∷ keys m

-- The URRs of the old set that the new one lacks.
abbrev pub dropped : List ℕ → IdSet → List ℕ
dropped [] new = []
dropped (id ∷ ids) new = let rest = dropped ids new in if has new id then rest else id ∷ rest

module _ {S : Type 0} (d : Driver S) where
  unfoldable pub create_pdr : Sess → S → Ie → Out S (Unit {0})
  create_pdr s st ie = elim ie.pdr_children [
    | none ↦ (err undecodable, s, st)
    | some cs ↦
        let ids = urr_ids_of cs in
        let s' = record s {
          urr_ids = bump_all s.urr_ids ids;
          pdr_ids = insert (pdr_id_of 0 cs) (set_of [] ids) s.pdr_ids;
        } in
        reply s' (d.create_pdr st s.local_id ie)
  ]

  -- The last PDR that used the URR is gone: the driver is asked for a final report.
  abbrev pub final_report : Sess → Option (List UsaReport) × S → List UsaReport × Sess × S
  final_report s (none, st) = ([], s, st)
  final_report s (some us, st) = (with_flag termr us, s, st)

  unfoldable pub diassociate_urr : Sess → S → ℕ → List UsaReport × Sess × S
  diassociate_urr s st id = elim (lookup id s.urr_ids) [
    | none ↦ ([], s, st)
    | some info ↦
        let left = info.ref_pdr_num - 1 in
        let s' = record s { urr_ids = insert id (record info { ref_pdr_num = left }) s.urr_ids } in
        if ltb 0 info.ref_pdr_num
        then if left == 0 then final_report s' (d.query_urr st s.local_id id) else ([], s', st)
        else ([], s, st)
  ]

  -- The loops over `RelatedURRIDs` of UpdatePDR and RemovePDR.
  unfoldable pub diassociate_all : Sess → S → List ℕ → List UsaReport × Sess × S
  diassociate_all s st [] = ([], s, st)
  diassociate_all s st (id ∷ ids) =
      let (us, s', st') = diassociate_urr s st id in
      let (vs, s'', st'') = diassociate_all s' st' ids in (us ++ vs, s'', st'')

  abbrev pub update_relations :
      ℕ → IdSet → IdSet → Sess → Option (Unit {0}) × S → Out S (List UsaReport)
  update_relations id old new s (none, st) = (err refused, s, st)
  update_relations id old new s (some _, st) =
      let (us, s', st') = diassociate_all s st (dropped (keys old) new) in
      (ok us, record s' { pdr_ids = insert id new s'.pdr_ids }, st')

  unfoldable pub update_pdr : Sess → S → Ie → Out S (List UsaReport)
  update_pdr s st ie = elim ie.pdr_children [
    | none ↦ (err undecodable, s, st)
    | some cs ↦
        let id = pdr_id_of 0 cs in
        elim (lookup id s.pdr_ids) [
          | none ↦ (err not_found, s, st)
          | some old ↦
              update_relations id old (set_of [] (urr_ids_of cs)) s (d.update_pdr st s.local_id ie)
        ]
  ]

  abbrev pub remove_relations : ℕ → IdSet → Sess → Option (Unit {0}) × S → Out S (List UsaReport)
  remove_relations id old s (none, st) = (err refused, s, st)
  remove_relations id old s (some _, st) =
      let (us, s', st') = diassociate_all s st (keys old) in
      (ok us, record s' { pdr_ids = delete id s'.pdr_ids }, st')

  unfoldable pub remove_pdr : Sess → S → Ie → Out S (List UsaReport)
  remove_pdr s st ie = elim ie.pdr_id [
    | none ↦ (err undecodable, s, st)
    | some id ↦ elim (lookup id s.pdr_ids) [
      | none ↦ (err not_found, s, st)
      | some old ↦ remove_relations id old s (d.remove_pdr st s.local_id ie)
    ]
  ]
