-- ===== src/Forwarder/FlowDesc/Ports.antt =====
-- internal/forwarder/flowdesc.go: the numbers of a description.
use go_upf.Base.{
  ℕ, ◌+◌, ◌-◌, ◌*◌, ◌<◌, ◌&&◌, Option, none, some, List, [], ◌∷◌, arith, Bytes, codes, split, cut,
  parse_uint, parse_digits, ltb, leb, Bool-cases, inl, inr, ltb→lt,
}
use go_upf.Forwarder.FlowDesc.{
  is_word, port_of, range_to, one_port, port_or_range, ports_and, ports_of_parts,
  parse_flow_desc_ports, proto_of, last_ports,
}

-- A number that may be missing is below the bound.
abbrev pub Below : ℕ → Option ℕ → Type 0
Below bound none = Unit {0}
Below bound (some n) = n < bound

parse_digits-Below : (bound n : ℕ) (s : Bytes) → Below bound (parse_digits bound n s)
parse_digits-Below bound n [] = elim (Bool-cases (ltb n bound)) [
  | inl e ↦ rw e (ltb→lt n bound e)
  | inr e ↦ rw e tt
]
parse_digits-Below bound n (c ∷ s) = elim (Bool-cases (leb b'0' c && leb c b'9')) [
  | inl e ↦ rw e (parse_digits-Below bound (n * 10 + (c - b'0')) s)
  | inr e ↦ rw e tt
]

parse_uint-Below : (bound : ℕ) (s : Bytes) → Below bound (parse_uint bound s)
parse_uint-Below bound [] = tt
parse_uint-Below bound (c ∷ s) = parse_digits-Below bound 0 (c ∷ s)

-- A port, or a range from one port to another.
abbrev pub PortFits : List ℕ → Type 0
PortFits [] = ⊥
PortFits (p ∷ []) = p < 65536
PortFits (p ∷ q ∷ []) = (p < 65536) × (q < 65536)
PortFits (p ∷ q ∷ r ∷ ps) = ⊥

abbrev pub PortsFit : List (List ℕ) → Type 0
PortsFit [] = Unit {0}
PortsFit (p ∷ ps) = PortFits p × PortsFit ps

abbrev PortFitsIf : Option (List ℕ) → Type 0
PortFitsIf none = Unit {0}
PortFitsIf (some p) = PortFits p

abbrev pub PortsFitIf : Option (List (List ℕ)) → Type 0
PortsFitIf none = Unit {0}
PortsFitIf (some ps) = PortsFit ps

one_port-PortFits : (o : Option ℕ) → Below 65536 o → PortFitsIf (one_port o)
one_port-PortFits none h = tt
one_port-PortFits (some v) h = h

range_to-PortFits : (a b : Option ℕ) → Below 65536 a → Below 65536 b → PortFitsIf (range_to a b)
range_to-PortFits none b h k = tt
range_to-PortFits (some v) none h k = tt
range_to-PortFits (some v) (some w) h k = (h, k)

port_or_range-PortFits : (r : Bytes × Option Bytes) → PortFitsIf (port_or_range r)
port_or_range-PortFits (a, none) = one_port-PortFits (port_of a) (parse_uint-Below 65536 a)
port_or_range-PortFits (a, some b) =
    range_to-PortFits (port_of a) (port_of b) (parse_uint-Below 65536 a) (parse_uint-Below 65536 b)

ports_and-PortsFit :
    (p : Option (List ℕ)) (ps : Option (List (List ℕ)))
    → PortFitsIf p
    → PortsFitIf ps
    → PortsFitIf (ports_and p ps)
ports_and-PortsFit none ps h k = tt
ports_and-PortsFit (some p) none h k = tt
ports_and-PortsFit (some p) (some ps) h k = (h, k)

ports_of_parts-PortsFit : (ps : List Bytes) → PortsFitIf (ports_of_parts ps)
ports_of_parts-PortsFit [] = tt
ports_of_parts-PortsFit (p ∷ ps) =
    ports_and-PortsFit (port_or_range (cut b'-' p)) (ports_of_parts ps)
      (port_or_range-PortFits (cut b'-' p)) (ports_of_parts-PortsFit ps)

pub parse_flow_desc_ports-PortsFit : (s : Bytes) → PortsFitIf (parse_flow_desc_ports s)
unfolding parse_flow_desc_ports
parse_flow_desc_ports-PortsFit s = ports_of_parts-PortsFit (split b',' s)

pub last_ports-PortsFit : (ts : List Bytes) → PortsFit (last_ports ts)
last_ports-PortsFit [] = tt
last_ports-PortsFit (p ∷ ps) = kept (parse_flow_desc_ports p) (parse_flow_desc_ports-PortsFit p)
  where
    kept :
        (o : Option (List (List ℕ)))
        → PortsFitIf o
        → PortsFit (elim o as (λ x. List (List ℕ)) [ none ↦ [] | some q ↦ q ])
    kept none h = tt
    kept (some q) h = h

pub proto_of-Below : (t : Bytes) → Below 256 (proto_of t)
proto_of-Below t = elim (Bool-cases (is_word t (codes "ip"))) [
  | inl e ↦ rw e (omega arith)
  | inr e ↦ rw e (parse_uint-Below 256 t)
]
