-- ===== src/Forwarder/Gtp5g/Kernel.antt =====
-- internal/forwarder/gtp5g.go: its state, and what it calls of go-gtp5gnl, of its link and of the
-- handler of reports.
use go_upf.Base.{
  ℕ, Bool, Option, none, some, List, [], ◌∷◌, Bytes, ◌≡◌, nat_pair_beq, if◌then◌else◌,
}
use go_upf.Report.{VolumeMeasure, UsaReport}
use go_upf.Perio.{PerioEvent}
use go_upf.Forwarder.Gtp5g.Attr.{AttrList}

-- `gtp5gnl.OID{lSeid, id}`.
pub record Oid : Type 0 where
  pub seid : ℕ
  pub id : ℕ

pub data RuleKind : Type 0 where
  a_pdr a_far a_qer a_urr a_bar : RuleKind

-- `gtp5gnl.USAReport`.
pub record NlReport : Type 0 where
  pub seid : ℕ
  pub urrid : ℕ
  pub query_urr_ref : ℕ
  pub usar_trigger : ℕ
  pub start_time : ℕ
  pub end_time : ℕ
  pub vol_measurement : VolumeMeasure

-- `gtp5gnl.FAR`, by the fields that are read; `creation` is far.Param.Creation, `none` for nil.
pub record NlCreation : Type 0 where
  pub teid : ℕ
  pub peer_addr : Bytes
  pub port : ℕ

pub record NlFar : Type 0 where
  pub action : ℕ
  pub pdr_ids : List ℕ
  pub creation : Option NlCreation

-- The calls of go-gtp5gnl and of the link, over the state `K` of the kernel. `none` and `false` are
-- errors, and a nil list of reports is the empty one.
pub record Gtp5gnl (K : Type 0) : Type 0 where
  pub create_oid : RuleKind → Oid → AttrList → K → Bool × K
  pub update_oid : RuleKind → Oid → AttrList → K → Bool × K
  pub remove_oid : RuleKind → Oid → K → Bool × K
  pub update_urr_oid : Oid → AttrList → K → Option (List NlReport) × K
  pub remove_urr_oid : Oid → K → Option (List NlReport) × K
  pub get_report_oid : Oid → K → Option (List NlReport) × K
  pub get_multi_reports_oid : List Oid → K → Option (List NlReport) × K
  pub get_far_oid : Oid → K → Option NlFar
  pub get_pdr_oid : Oid → K → Option (List ℕ)  -- QERID
  pub get_qer_oid : Oid → K → Option ℕ  -- QFI
  pub max_netlink_usage_report_num : ℕ
  pub write_to : Bytes → Bytes → ℕ → K → Bool × K  -- what, to which address and port

-- `report.Handler.PopBufPkt`, with the packets that wait for a PDR of a session, the oldest first.
pub record Handler (H : Type 0) : Type 0 where
  pub pop_buf_pkt : H → ℕ → ℕ → Option Bytes × H
  pub queue : H → ℕ → ℕ → List Bytes

-- A handler answers with the oldest packet and takes it from its queue and from no other one; where
-- none waits it says so and changes nothing.
pub record HandlerLaws {H : Type 0} (hd : Handler H) : Type 0 where
  pub empty :
      (h : H) (seid pdrid : ℕ)
      → hd.queue h seid pdrid ≡ []
      → hd.pop_buf_pkt h seid pdrid ≡ (none, h)
  pub front :
      (h : H) (seid pdrid : ℕ) (p : Bytes) (ps : List Bytes)
      → hd.queue h seid pdrid ≡ p ∷ ps
      → (h' : H) × (hd.pop_buf_pkt h seid pdrid ≡ (some p, h'))
        × ((s j : ℕ)
            → hd.queue h' s j ≡ (if nat_pair_beq (seid, pdrid) (s, j) then ps else hd.queue h s j))

-- `Gtp5g`: the kernel, what was put on the channel of the server of periodic reports, and the
-- handler.
pub record Gtp5g (K H : Type 0) : Type 0 where
  pub kernel : K
  pub perio_events : List PerioEvent
  pub handler : H

-- The reports of an update or a removal; those of a query leave the trigger out.
abbrev pub usa_report : NlReport → UsaReport
usa_report r = record {
  urrid = r.urrid;
  urseqn = 0;
  usar_trigger = r.usar_trigger;
  volum_measure = record r.vol_measurement { flags = 0 };
  durat_measure = 0;
  query_urr_ref = r.query_urr_ref;
  start_time = r.start_time;
  end_time = r.end_time;
}

abbrev pub usa_reports : List NlReport → List UsaReport
usa_reports [] = []
usa_reports (r ∷ rs) = usa_report r ∷ usa_reports rs

abbrev pub queried_report : NlReport → UsaReport
queried_report r = record (usa_report r) { usar_trigger = 0 }

abbrev pub queried_reports : List NlReport → List UsaReport
queried_reports [] = []
queried_reports (r ∷ rs) = queried_report r ∷ queried_reports rs
