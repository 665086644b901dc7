-- ===== src/Userspace/Binding.antt =====
-- internal/forwarder/userspace/runtime.go: the snapshot of the rules that packets are matched
-- against, and the choice of a binding. The key of the downlink map is an address itself in place of
-- its text.
pub mod Sort
pub mod Index
pub mod Choice
use go_upf.Base.{
  ℕ, Bool, true, false, not, ◌&&◌, Option, none, some, List, [], ◌∷◌, ◌++◌, length, Assoc, lookup,
  insert, ltb, ◌==◌, if◌then◌else◌, nat_eq, Eq, Bytes, bytes_eq, bytes_beq,
}
use go_upf.Userspace.Rule.{PdrRule, FarRule, QerRule, UrrRule, BarRule, Pdi, Fteid, SessionState}
use go_upf.Userspace.Sdf.{PacketMeta, PacketDirection, uplink, downlink, match_sdf}

-- `PDRBinding`, without the adaptive flow.
pub record PdrBinding : Type 0 where
  pub seid : ℕ
  pub pdr : PdrRule
  pub far : Option FarRule
  pub qers : List QerRule
  pub urrs : List UrrRule
  pub bar : Option BarRule

-- Uplink and Downlink of `RuntimeSnapshot`, and the keys of Sessions.
pub record RuntimeSnapshot : Type 0 where
  pub sessions : List ℕ
  pub uplink : Assoc ℕ (List PdrBinding)
  pub downlink : Assoc Bytes (List PdrBinding)

-- The rules that are there, in the order of the identifiers.
abbrev pub present : {R : Type 0} → List ℕ → Assoc ℕ R → List R
present [] m = []
present (id ∷ ids) m =
    let rest = present ids m in elim (lookup id m) [ none ↦ rest | some r ↦ r ∷ rest ]

abbrev pub lookup_opt : {R : Type 0} → Option ℕ → Assoc ℕ R → Option R
lookup_opt none m = none
lookup_opt (some id) m = lookup id m

abbrev pub far_bar : Option FarRule → Option ℕ
far_bar none = none
far_bar (some f) = f.bar_id

module _ {F : Type 0} where
  -- The binding of a PDR in `buildRuntimeSnapshot`.
  abbrev pub bind_pdr : ℕ → SessionState F → PdrRule → PdrBinding
  bind_pdr seid s p =
      let far = lookup_opt p.far_id s.fars in
      record {
        seid = seid;
        pdr = p;
        far = far;
        qers = present p.qer_ids s.qers;
        urrs = present p.urr_ids s.urrs;
        bar = lookup_opt (far_bar far) s.bars;
      }

-- ie.SrcInterfaceAccess and ie.SrcInterfaceCore.
abbrev pub has_source : ℕ → Option ℕ → Bool
has_source i none = false
has_source i (some j) = j == i

-- The TEID under which a PDR is listed in Uplink, and the address in Downlink.
abbrev pub uplink_key : PdrRule → Option ℕ
uplink_key p = elim p.pdi [
  | none ↦ none
  | some pdi ↦ elim pdi.fteid [
    | none ↦ none
    | some t ↦ (if has_source 0 pdi.source_interface then some t.teid else none)
  ]
]

abbrev pub downlink_key : PdrRule → Option Bytes
downlink_key p = elim p.pdi [
  | none ↦ none
  | some pdi ↦
      (if ltb 0 (length pdi.ue_ipv4) && has_source 1 pdi.source_interface
        then some pdi.ue_ipv4
        else none)
]

abbrev or_nil : Option (List PdrBinding) → List PdrBinding
or_nil none = []
or_nil (some l) = l

module _ {K : Type 0} ⦃e : Eq K⦄ where
  -- What a map of slices holds under a key, nil where it has none.
  abbrev pub bindings_at : K → Assoc K (List PdrBinding) → List PdrBinding
  bindings_at k m = or_nil (lookup k m)

  abbrev pub append_at :
      Option K → PdrBinding → Assoc K (List PdrBinding) → Assoc K (List PdrBinding)
  append_at none b m = m
  append_at (some k) b m = insert k (bindings_at k m ++ b ∷ []) m

  module _ {F : Type 0} (key : PdrRule → Option K) where
    -- The loop over the PDRs of a session, for one of the two maps.
    unfoldable pub index_pdrs :
        ℕ → SessionState F → Assoc ℕ PdrRule → Assoc K (List PdrBinding) → Assoc K (List PdrBinding)
    index_pdrs seid s [] m = m
    index_pdrs seid s ((id, p) ∷ ps) m =
        index_pdrs seid s ps (append_at (key p) (bind_pdr seid s p) m)

    -- The loop over the sessions.
    unfoldable pub index_sessions :
        Assoc ℕ (SessionState F) → Assoc K (List PdrBinding) → Assoc K (List PdrBinding)
    unfolding index_pdrs
    index_sessions [] m = m
    index_sessions ((seid, s) ∷ ss) m = index_sessions ss (index_pdrs seid s s.pdrs m)

-- `precedenceOf`.
unfoldable pub precedence_of : PdrRule → ℕ
precedence_of p = elim p.precedence [ none ↦ 0 | some v ↦ v ]

-- The order of `sortBindings`.
unfoldable pub comes_before : PdrBinding → PdrBinding → Bool
unfolding precedence_of
comes_before a b =
    if precedence_of a.pdr == precedence_of b.pdr
    then ltb a.pdr.id b.pdr.id
    else ltb (precedence_of b.pdr) (precedence_of a.pdr)

-- sort.SliceStable: an element stays before those that do not come before it.
unfoldable pub insert_binding : PdrBinding → List PdrBinding → List PdrBinding
unfolding comes_before
insert_binding b [] = b ∷ []
insert_binding b (c ∷ cs) =
    let rest = insert_binding b cs in if comes_before c b then c ∷ rest else b ∷ c ∷ cs

unfoldable pub sort_bindings : List PdrBinding → List PdrBinding
unfolding insert_binding
sort_bindings [] = []
sort_bindings (b ∷ bs) = insert_binding b (sort_bindings bs)

abbrev pub sort_all : {K : Type 0} → Assoc K (List PdrBinding) → Assoc K (List PdrBinding)
sort_all [] = []
sort_all ((k, bs) ∷ m) = (k, sort_bindings bs) ∷ sort_all m

abbrev pub seids : {F : Type 0} → Assoc ℕ (SessionState F) → List ℕ
seids [] = []
seids ((seid, s) ∷ ss) = seid ∷ seids ss

-- `buildRuntimeSnapshot`.
unfoldable pub build_runtime_snapshot : {F : Type 0} → Assoc ℕ (SessionState F) → RuntimeSnapshot
unfolding index_sessions sort_bindings
build_runtime_snapshot ss = record {
  sessions = seids ss;
  uplink = sort_all (index_sessions uplink_key ss []);
  downlink = sort_all (index_sessions downlink_key ss []);
}

-- `selectUplinkBinding`, with the binding that it falls back on so far.
unfoldable pub select_from :
    Option PdrBinding → List PdrBinding → Bytes → Option PacketMeta → Option PdrBinding
unfolding match_sdf
select_from fallback [] ue m = fallback
select_from fallback (b ∷ bs) ue m = elim b.pdr.pdi [
  | none ↦ select_from fallback bs ue m
  | some pdi ↦ elim (match_sdf b.pdr m uplink) [
    | false ↦ select_from fallback bs ue m
    | true ↦ elim (ltb 0 (length ue) && ltb 0 (length pdi.ue_ipv4)) [
      | false ↦ some b
      | true ↦ elim (bytes_beq pdi.ue_ipv4 ue) [
        | true ↦ some b
        | false ↦ select_from (elim fallback [ none ↦ some b | some f ↦ some f ]) bs ue m
      ]
    ]
  ]
]

abbrev pub select_uplink_binding : List PdrBinding → Bytes → Option PacketMeta → Option PdrBinding
select_uplink_binding bs ue m = select_from none bs ue m

-- The candidates of every other TEID.
abbrev pub others : ℕ → Assoc ℕ (List PdrBinding) → List PdrBinding
others teid [] = []
others teid ((k, bs) ∷ m) = let rest = others teid m in if k == teid then rest else bs ++ rest

-- `matchUplink`.
unfoldable pub match_uplink : RuntimeSnapshot → ℕ → Bytes → Option PacketMeta → Option PdrBinding
unfolding select_from
match_uplink sn teid ue m = elim (select_uplink_binding (bindings_at teid sn.uplink) ue m) [
  | none ↦ select_uplink_binding (others teid sn.uplink) ue m
  | some b ↦ some b
]

unfoldable pub first_match : List PdrBinding → Option PacketMeta → Option PdrBinding
unfolding match_sdf
first_match [] m = none
first_match (b ∷ bs) m =
    let rest = first_match bs m in if match_sdf b.pdr m downlink then some b else rest

-- `matchDownlink`.
unfoldable pub match_downlink : RuntimeSnapshot → Bytes → Option PacketMeta → Option PdrBinding
unfolding first_match
match_downlink sn ue m = if length ue == 0 then none else first_match (bindings_at ue sn.downlink) m
