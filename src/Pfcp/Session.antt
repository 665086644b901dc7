-- ===== src/Pfcp/Session.antt =====
-- internal/pfcp/session.go: the handlers of the session requests.
pub mod Establish
pub mod Modify
pub mod Remove
pub mod Names
pub mod Established
pub mod Deleted
pub mod SameId
pub mod Valid
use go_upf.Base.{
  ℕ, ◌-◌, Bool, true, false, Option, none, some, List, [], ◌∷◌, ◌++◌, String, get_elem?, set, Assoc,
  lookup, insert, delete, if◌then◌else◌, nat_eq, string_eq,
}
use go_upf.Report.{UsaReport, UsageIe, usage_ies, set_bit, termr}
use go_upf.Forwarder.{
  Ie, Driver, PdrChild, pdr_id_child, urr_id_child, pdi_child, other_child, PdiChild, ue_ip_child,
  other_pdi,
}
use go_upf.Pfcp.Sess.{Sess, Out, create_pdr, update_pdr, remove_pdr}
use go_upf.Pfcp.Sess.Rules.{
  create_far, update_far, remove_far, create_qer, update_qer, remove_qer, create_bar, update_bar,
  remove_bar, create_urr, update_urr, remove_urr, query_urr, urr_seq,
}
use go_upf.Pfcp.Sess.Close.{reports}
use go_upf.Pfcp.Node.{
  Nodes, LocalNode, RemoteNode, Closed, local_sess, node_new_sess, node_delete_sess,
}
use go_upf.Pfcp.Server.{
  Server, Response, Cause, request_accepted, session_context_not_found, establishment_rsp,
  modification_rsp, deletion_rsp, send_rsp_to,
}

-- A mandatory element: `none` where it is missing, `some none` where it does not decode.
abbrev pub Element : Type 0 → Type 0
Element A = Option (Option A)

pub record EstablishmentRequest : Type 0 where
  pub seq : ℕ
  pub node_id : Element String
  pub cp_fseid : Element ℕ
  pub create_fars : List Ie
  pub create_qers : List Ie
  pub create_urrs : List Ie
  pub create_bar : Option Ie
  pub create_pdrs : List Ie

pub record ModificationRequest : Type 0 where
  pub seid : ℕ
  pub seq : ℕ
  pub node_id : Element String
  pub create_fars : List Ie
  pub create_qers : List Ie
  pub create_urrs : List Ie
  pub create_bar : Option Ie
  pub create_pdrs : List Ie
  pub remove_fars : List Ie
  pub remove_qers : List Ie
  pub remove_urrs : List Ie
  pub remove_bar : Option Ie
  pub remove_pdrs : List Ie
  pub update_fars : List Ie
  pub update_qers : List Ie
  pub update_urrs : List Ie
  pub update_bar : Option Ie
  pub update_pdrs : List Ie
  pub query_urrs : List Ie

-- `getUEAddressFromPDR`.
abbrev pub ue_of_pdi : List PdiChild → Option String
ue_of_pdi [] = none
ue_of_pdi (ue_ip_child v ∷ cs) = v
ue_of_pdi (other_pdi ∷ cs) = ue_of_pdi cs

abbrev pub has_ue : List PdiChild → Bool
has_ue [] = false
has_ue (ue_ip_child v ∷ cs) = true
has_ue (other_pdi ∷ cs) = has_ue cs

-- A PDI with no UE address is passed over, and the first that does not decode ends the search.
abbrev pub ue_of_pdr : List PdrChild → Option String
ue_of_pdr [] = none
ue_of_pdr (pdi_child none ∷ cs) = none
ue_of_pdr (pdi_child (some ps) ∷ cs) =
    let rest = ue_of_pdr cs in if has_ue ps then ue_of_pdi ps else rest
ue_of_pdr (pdr_id_child v ∷ cs) = ue_of_pdr cs
ue_of_pdr (urr_id_child v ∷ cs) = ue_of_pdr cs
ue_of_pdr (other_child ∷ cs) = ue_of_pdr cs

unfoldable pub ue_address_from_pdr : Ie → Option String
ue_address_from_pdr ie = elim ie.pdr_children [ none ↦ none | some cs ↦ ue_of_pdr cs ]

-- `getPDRIDFromPDR`: the first one.
abbrev pub first_pdr_id : List PdrChild → ℕ
first_pdr_id [] = 0
first_pdr_id (pdr_id_child none ∷ cs) = 0
first_pdr_id (pdr_id_child (some v) ∷ cs) = v
first_pdr_id (urr_id_child v ∷ cs) = first_pdr_id cs
first_pdr_id (pdi_child v ∷ cs) = first_pdr_id cs
first_pdr_id (other_child ∷ cs) = first_pdr_id cs

unfoldable pub pdr_id_from_pdr : Ie → ℕ
pdr_id_from_pdr ie = elim ie.pdr_children [ none ↦ 0 | some cs ↦ first_pdr_id cs ]

-- `CreatedPDRList`.
abbrev pub created_pdrs : List Ie → List (ℕ × String)
created_pdrs [] = []
created_pdrs (ie ∷ ies) = elim (ue_address_from_pdr ie) [
  | none ↦ created_pdrs ies
  | some ip ↦ (pdr_id_from_pdr ie, ip) ∷ created_pdrs ies
]

abbrev pub optional : Option Ie → List Ie
optional none = []
optional (some ie) = ie ∷ []

module _ {S : Type 0} where
  -- A loop over elements that logs the errors.
  abbrev pub each : {A : Type 0} → (Sess → S → Ie → Out S A) → Sess × S → List Ie → Sess × S
  each op (s, st) [] = (s, st)
  each op (s, st) (ie ∷ ies) = let (r, s', st') = op s st ie in each op (s', st') ies

  -- One that collects the reports too.
  abbrev pub collect :
      (Sess → S → Ie → Out S (List UsaReport))
      → List UsaReport × Sess × S
      → List Ie
      → List UsaReport × Sess × S
  collect op (us, s, st) [] = (us, s, st)
  collect op (us, s, st) (ie ∷ ies) =
      let (r, s', st') = op s st ie in collect op (us ++ reports r, s', st') ies
