-- ===== src/Forwarder/FlowDesc/Grammar.antt =====
-- internal/forwarder/flowdesc.go: the rules that are accepted, by their words, without the parser.
use go_upf.Base.{
  ℕ, ◌≡◌, ◌≢◌, ◌⊎◌, Option, none, some, List, [], ◌∷◌, ◌++◌, Bytes, codes, split, cut, parse_uint,
}
use go_upf.Forwarder.FlowDesc.{FlowDesc}

-- A port, or a range of two, of what stands before and behind a dash.
abbrev pub IsPort : Bytes × Option Bytes → List ℕ → Type 0
IsPort (a, none) p = (v : ℕ) × (parse_uint 65536 a ≡ some v) × (p ≡ v ∷ [])
IsPort (a, some b) p =
    (v : ℕ) × (w : ℕ) × (parse_uint 65536 a ≡ some v)
    × (parse_uint 65536 b ≡ some w)
    × (p ≡ v ∷ w ∷ [])

abbrev pub AllPorts : List Bytes → List (List ℕ) → Type 0
AllPorts [] [] = Unit {0}
AllPorts (t ∷ ts) (p ∷ ps) = IsPort (cut b'-' t) p × AllPorts ts ps
AllPorts _ _ = ⊥

-- A word of ports with commas between them.
abbrev pub IsPorts : Bytes → List (List ℕ) → Type 0
IsPorts t ps = AllPorts (split b',' t) ps

abbrev pub IsProto : Bytes → ℕ → Type 0
IsProto t v = ((t ≡ codes "ip") × (v ≡ 255)) ⊎ ((t ≢ codes "ip") × (parse_uint 256 t ≡ some v))

-- Ports of the source, where there are any.
abbrev pub SrcPorts : List Bytes → List (List ℕ) → Type 0
SrcPorts [] ps = ps ≡ []
SrcPorts (t ∷ []) ps = IsPorts t ps
SrcPorts (t ∷ u ∷ ts) ps = ⊥

-- What stands behind the destination: its ports, or a word that is none, and then anything.
abbrev pub DstPorts : List Bytes → List (List ℕ) → Type 0
DstPorts [] ps = ps ≡ []
DstPorts (t ∷ ts) ps = IsPorts t ps ⊎ (((qs : List (List ℕ)) → ¬ IsPorts t qs) × (ps ≡ []))

abbrev pub IsAny : Bytes → Type 0
IsAny t = (t ≡ codes "any") ⊎ (t ≡ codes "assigned")

module _ {N : Type 0} (everything : N) (parse_cidr parse_host : Bytes → Option N) where
  abbrev pub IsNet : Bytes → N → Type 0
  IsNet t n =
      (IsAny t × (n ≡ everything))
      ⊎ ((¬ IsAny t)
          × ((parse_cidr t ≡ some n) ⊎ ((parse_cidr t ≡ none) × (parse_host t ≡ some n))))

  -- The words of a rule, and what each of them says.
  pub record IsFilterRule (ts : List Bytes) (fd : FlowDesc N) : Type 0 where
    pub proto_word : Bytes
    pub src_word : Bytes
    pub port_words : List Bytes
    pub dst_word : Bytes
    pub last_words : List Bytes
    pub words :
        ts
        ≡ codes "permit"
          ∷ fd.dir
          ∷ proto_word
          ∷ codes "from"
          ∷ src_word
          ∷ (port_words ++ codes "to" ∷ dst_word ∷ last_words)
    pub action : fd.action ≡ codes "permit"
    pub direction : (fd.dir ≡ codes "in") ⊎ (fd.dir ≡ codes "out")
    pub proto : IsProto proto_word fd.proto
    pub src : IsNet src_word fd.src
    pub src_ports : SrcPorts port_words fd.src_ports
    pub dst : IsNet dst_word fd.dst
    pub dst_ports : DstPorts last_words fd.dst_ports
