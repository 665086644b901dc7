-- ===== src/Forwarder/FlowDesc/Fits.antt =====
-- internal/forwarder/flowdesc.go: the fields of a description that is accepted.
use go_upf.Base.{
  ℕ, ◌<◌, true, ◌||◌, Option, none, some, List, [], ◌∷◌, ◌≡◌, ◌⊎◌, subst, Bytes, bytes_beq_iff,
  codes, fields, if◌then◌else◌, Bool-cases, inl, inr,
}
use go_upf.Forwarder.FlowDesc.{
  FlowDesc, started, is_word, parse_flow_desc_ports, proto_of, last_ports, parse_flow_desc_ip_net,
  parse_dst, parse_src_ports, parse_src, parse_tokens, parse_flow_desc,
}
use go_upf.Forwarder.FlowDesc.Ports.{
  PortsFit, Below, PortsFitIf, parse_flow_desc_ports-PortsFit, last_ports-PortsFit, proto_of-Below,
}

module _ {N : Type 0} where
  -- The fields of an accepted description.
  abbrev pub IsFlow : FlowDesc N → Type 0
  IsFlow fd =
      (fd.action ≡ codes "permit")
      × ((fd.dir ≡ codes "in") ⊎ (fd.dir ≡ codes "out"))
      × (fd.proto < 256)
      × PortsFit fd.src_ports
      × PortsFit fd.dst_ports

  abbrev Accepted : Option (FlowDesc N) → Type 0
  Accepted none = Unit {0}
  Accepted (some fd) = IsFlow fd

  module _ (everything : N) (parse_cidr parse_host : Bytes → Option N) where
    parse_dst-Accepted :
        (fd : FlowDesc N) (ts : List Bytes)
        → IsFlow fd
        → Accepted (parse_dst everything parse_cidr parse_host fd ts)
    parse_dst-Accepted fd [] h = tt
    parse_dst-Accepted fd (t ∷ []) h = tt
    parse_dst-Accepted fd (t ∷ d ∷ ts) (a, i, p, s, q) =
        elim (Bool-cases (is_word t (codes "to"))) [
          | inl e ↦ rw e (at_net (parse_flow_desc_ip_net everything parse_cidr parse_host d))
          | inr e ↦ rw e tt
        ]
      where
        at_net :
            (o : Option N)
            → Accepted (elim o as (λ x. Option (FlowDesc N)) [
              | none ↦ none
              | some n ↦ some (record fd { dst = n; dst_ports = last_ports ts })
            ])
        at_net none = tt
        at_net (some n) = (a, i, p, s, last_ports-PortsFit ts)

    parse_src_ports-Accepted :
        (fd : FlowDesc N) (ts : List Bytes)
        → IsFlow fd
        → Accepted (parse_src_ports everything parse_cidr parse_host fd ts)
    parse_src_ports-Accepted fd [] h = tt
    parse_src_ports-Accepted fd (t ∷ ts) (a, i, p, s, q) =
        at_ports (parse_flow_desc_ports t) (parse_flow_desc_ports-PortsFit t)
      where
        at_ports :
            (o : Option (List (List ℕ)))
            → PortsFitIf o
            → Accepted (elim o as (λ x. Option (FlowDesc N)) [
              | none ↦ parse_dst everything parse_cidr parse_host fd (t ∷ ts)
              | some r ↦ parse_dst everything parse_cidr parse_host (record fd { src_ports = r }) ts
            ])
        at_ports none h = parse_dst-Accepted fd (t ∷ ts) (a, i, p, s, q)
        at_ports (some r) h = parse_dst-Accepted (record fd { src_ports = r }) ts (a, i, p, h, q)

    parse_src-Accepted :
        (action dir : Bytes) (proto : ℕ) (addr : Bytes) (ts : List Bytes)
        → action ≡ codes "permit"
        → (dir ≡ codes "in") ⊎ (dir ≡ codes "out")
        → proto < 256
        → Accepted (parse_src everything parse_cidr parse_host action dir proto addr ts)
    parse_src-Accepted action dir proto addr ts a i p =
        at_net (parse_flow_desc_ip_net everything parse_cidr parse_host addr)
      where
        at_net :
            (o : Option N)
            → Accepted (elim o as (λ x. Option (FlowDesc N)) [
              | none ↦ none
              | some n ↦
                  parse_src_ports everything parse_cidr parse_host (started action dir proto n) ts
            ])
        at_net none = tt
        at_net (some n) = parse_src_ports-Accepted (started action dir proto n) ts (a, i, p, tt, tt)

    parse_tokens-Accepted :
        (ts : List Bytes) → Accepted (parse_tokens everything parse_cidr parse_host ts)
    parse_tokens-Accepted [] = tt
    parse_tokens-Accepted (a ∷ []) = tt
    parse_tokens-Accepted (a ∷ d ∷ []) = tt
    parse_tokens-Accepted (a ∷ d ∷ p ∷ []) = tt
    parse_tokens-Accepted (a ∷ d ∷ p ∷ w ∷ []) = tt
    parse_tokens-Accepted (a ∷ d ∷ p ∷ w ∷ addr ∷ ts) =
        elim (Bool-cases (is_word a (codes "permit"))) [
          | inl e ↦ elim (Bool-cases (is_word d (codes "in") || is_word d (codes "out"))) [
            | inl f ↦
                rw (e, f)
                  (at_proto ((bytes_beq_iff a (codes "permit")).0 e) (direction f) (proto_of p)
                    (proto_of-Below p))
            | inr f ↦ rw (e, f) tt
          ]
          | inr e ↦ rw e tt
        ]
      where
        direction :
            (is_word d (codes "in") || is_word d (codes "out")) ≡ true
            → (d ≡ codes "in") ⊎ (d ≡ codes "out")
        direction f = elim (Bool-cases (is_word d (codes "in"))) [
          | inl g ↦ inl ((bytes_beq_iff d (codes "in")).0 g)
          | inr g ↦ inr (
              (bytes_beq_iff d (codes "out")).0
                (subst (λ b. (b || is_word d (codes "out")) ≡ true) g f))
        ]

        at_proto :
            a ≡ codes "permit"
            → (d ≡ codes "in") ⊎ (d ≡ codes "out")
            → (o : Option ℕ) → Below 256 o
            → Accepted (elim o as (λ x. Option (FlowDesc N)) [
              | none ↦ none
              | some v ↦
                  (if is_word w (codes "from")
                    then parse_src everything parse_cidr parse_host a d v addr ts
                    else none)
            ])
        at_proto e i none h = tt
        at_proto e i (some v) h = elim (Bool-cases (is_word w (codes "from"))) [
          | inl f ↦ rw f (parse_src-Accepted a d v addr ts e i h)
          | inr f ↦ rw f tt
        ]

    -- Of a description that is accepted the action and the direction are those of a rule, the protocol
    -- fits eight bits, and the ports of either side are numbers of 16 bits, alone or two for a range.
    pub parse_flow_desc-IsFlow :
        (s : Bytes) (fd : FlowDesc N)
        → parse_flow_desc everything parse_cidr parse_host s ≡ some fd
        → IsFlow fd
    unfolding parse_flow_desc
    parse_flow_desc-IsFlow s fd e = subst Accepted e (parse_tokens-Accepted (fields s))
