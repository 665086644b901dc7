-- ===== src/Forwarder.antt =====
-- internal/forwarder/driver.go and empty.go: the interface between the PFCP server and a packet
-- forwarder, and the forwarder that does nothing.
pub mod FlowDesc
pub mod Gtp5g
use go_upf.Base.{ℕ, Option, some, List, [], String}
use go_upf.Report.{MeasureMethod, MeasureInformation, UsaReport}

-- A child of a PDI element: its UE address as IPv4Address.String() prints it.
pub data PdiChild : Type 0 where
  ue_ip_child : Option String → PdiChild
  other_pdi : PdiChild

-- A child of a Create PDR or Update PDR element, with what go-pfcp's decoder returns for it:
-- `none` is its error.
pub data PdrChild : Type 0 where
  pdr_id_child urr_id_child : Option ℕ → PdrChild
  pdi_child : Option (List PdiChild) → PdrChild
  other_child : PdrChild

-- A child of a Create URR or Update URR element that `Sess` looks at.
pub data UrrChild : Type 0 where
  measurement_method : MeasureMethod → UrrChild
  measurement_information : MeasureInformation → UrrChild

-- An information element, by the answers of go-pfcp's accessors on it. `token` stands for the bytes
-- that only a driver looks at.
pub record Ie : Type 0 where
  pub pdr_id : Option ℕ
  pub far_id : Option ℕ
  pub qer_id : Option ℕ
  pub urr_id : Option ℕ
  pub bar_id : Option ℕ
  pub pdr_children : Option (List PdrChild)  -- CreatePDR() and UpdatePDR()
  pub method : MeasureMethod  -- HasDURAT(), HasVOLUM() and HasEVENT()
  pub urr_children : List UrrChild  -- ChildIEs
  pub token : ℕ

-- A method of the driver takes the local SEID and the element, and changes the driver's state.
-- `none` is an error.
abbrev pub Method : Type 0 → Type 0 → Type 0
Method S A = S → ℕ → Ie → Option A × S

-- The interface `Driver`, over the state that an implementation keeps. `Close` and `HandleReport`
-- are called when the program starts and ends, and by no operation of a session.
pub record Driver (S : Type 0) : Type 0 where
  pub create_pdr : Method S (Unit {0})
  pub update_pdr : Method S (Unit {0})
  pub remove_pdr : Method S (Unit {0})
  pub create_far : Method S (Unit {0})
  pub update_far : Method S (Unit {0})
  pub remove_far : Method S (Unit {0})
  pub create_qer : Method S (Unit {0})
  pub update_qer : Method S (Unit {0})
  pub remove_qer : Method S (Unit {0})
  pub create_urr : Method S (Unit {0})
  pub update_urr : Method S (List UsaReport)
  pub remove_urr : Method S (List UsaReport)
  pub query_urr : S → ℕ → ℕ → Option (List UsaReport) × S
  pub create_bar : Method S (Unit {0})
  pub update_bar : Method S (Unit {0})
  pub remove_bar : Method S (Unit {0})

-- `Empty` accepts everything, keeps nothing and reports nothing.
abbrev accept : Method (Unit {0}) (Unit {0})
accept s seid ie = (some tt, s)

abbrev no_reports : Method (Unit {0}) (List UsaReport)
no_reports s seid ie = (some [], s)

abbrev pub empty_driver : Driver (Unit {0})
empty_driver = record {
  create_pdr = accept;
  update_pdr = accept;
  remove_pdr = accept;
  create_far = accept;
  update_far = accept;
  remove_far = accept;
  create_qer = accept;
  update_qer = accept;
  remove_qer = accept;
  create_urr = accept;
  update_urr = no_reports;
  remove_urr = no_reports;
  query_urr = λ s seid id. (some [], s);
  create_bar = accept;
  update_bar = accept;
  remove_bar = accept;
}
