-- ===== src/Forwarder/FlowDesc/Sound.antt =====
-- internal/forwarder/flowdesc.go: a description that is accepted has the words of a rule.
use go_upf.Base.{
  ℕ, ◌≡◌, ◌⊎◌, inl, inr, refl, ap, subst, ◌||◌, true, Bool-cases, Option, none, some, List, [], ◌∷◌,
  ◌++◌, Bytes, codes, bytes_beq_iff, if◌then◌else◌,
}
use go_upf.Forwarder.FlowDesc.{
  FlowDesc, started, is_word, parse_flow_desc_ports, proto_of, last_ports, parse_flow_desc_ip_net,
  parse_dst, parse_src_ports, parse_src, parse_tokens,
}
use go_upf.Forwarder.FlowDesc.Grammar.{IsPorts, SrcPorts, DstPorts, IsProto, IsNet, IsFilterRule}
use go_upf.Forwarder.FlowDesc.Words.{
  Holds, Holds-bind, parse_flow_desc_ports-Holds, last_ports-DstPorts, proto_of-Holds,
  parse_flow_desc_ip_net-Holds,
}

module _ {N : Type 0} (everything : N) (parse_cidr parse_host : Bytes → Option N) where
  abbrev Net : Bytes → N → Type 0
  Net t n = IsNet everything parse_cidr parse_host t n

  parse_dst-Holds :
      (P : FlowDesc N → Type 0) (fd : FlowDesc N) (ts : List Bytes)
      → ((d : Bytes) (last : List Bytes) (n : N) (ps : List (List ℕ))
          → ts ≡ codes "to" ∷ d ∷ last
          → Net d n
          → DstPorts last ps
          → P (record fd { dst = n; dst_ports = ps }))
      → Holds P (parse_dst everything parse_cidr parse_host fd ts)
  parse_dst-Holds P fd [] f = tt
  parse_dst-Holds P fd (t ∷ []) f = tt
  parse_dst-Holds P fd (t ∷ d ∷ ts) f = elim (Bool-cases (is_word t (codes "to"))) [
    | inl e ↦
        let to : t ≡ codes "to" = (bytes_beq_iff t (codes "to")).0 e in
        rw e (
          Holds-bind (Net d) P (parse_flow_desc_ip_net everything parse_cidr parse_host d)
            (λ n. some (record fd { dst = n; dst_ports = last_ports ts }))
            (parse_flow_desc_ip_net-Holds everything parse_cidr parse_host d)
            (λ n h. f d ts n (last_ports ts) (ap (λ u. u ∷ d ∷ ts) to) h (last_ports-DstPorts ts)))
    | inr e ↦ rw e tt
  ]

  -- What comes behind the source, of a rule whose words so far are read.
  abbrev Rest : (FlowDesc N → Type 0) → FlowDesc N → List Bytes → Type 0
  Rest P fd ts =
      (ws : List Bytes) (ps : List (List ℕ)) (d : Bytes) (last : List Bytes) (n : N)
      (qs : List (List ℕ))
      → ts ≡ ws ++ codes "to" ∷ d ∷ last
      → SrcPorts ws ps
      → Net d n
      → DstPorts last qs
      → P (record fd { src_ports = ps; dst = n; dst_ports = qs })

  parse_src_ports-Holds :
      (P : FlowDesc N → Type 0) (action dir : Bytes) (proto : ℕ) (src : N) (ts : List Bytes)
      → Rest P (started action dir proto src) ts
      → Holds P (parse_src_ports everything parse_cidr parse_host (started action dir proto src) ts)
  parse_src_ports-Holds P a i v n [] f = tt
  parse_src_ports-Holds P a i v n (t ∷ ts) f =
      at_ports (parse_flow_desc_ports t) (parse_flow_desc_ports-Holds t)
    where
      at_ports :
          (o : Option (List (List ℕ)))
          → Holds (IsPorts t) o
          → Holds P (elim o as (λ x. Option (FlowDesc N)) [
            | none ↦ parse_dst everything parse_cidr parse_host (started a i v n) (t ∷ ts)
            | some r ↦
                parse_dst everything parse_cidr parse_host
                  (record (started a i v n) { src_ports = r })
                  ts
          ])
      at_ports none h =
          parse_dst-Holds P (started a i v n) (t ∷ ts)
            (λ d last m qs e k l. f [] [] d last m qs e refl k l)
      at_ports (some r) h =
          parse_dst-Holds P (record (started a i v n) { src_ports = r }) ts
            (λ d last m qs e k l. f (t ∷ []) r d last m qs (ap (λ us. t ∷ us) e) h k l)

  direction :
      (d : Bytes)
      → (is_word d (codes "in") || is_word d (codes "out")) ≡ true
      → (d ≡ codes "in") ⊎ (d ≡ codes "out")
  direction d f = elim (Bool-cases (is_word d (codes "in"))) [
    | inl g ↦ inl ((bytes_beq_iff d (codes "in")).0 g)
    | inr g ↦
        inr (
          (bytes_beq_iff d (codes "out")).0
            (subst (λ b. (b || is_word d (codes "out")) ≡ true) g f))
  ]

  abbrev Rule : List Bytes → FlowDesc N → Type 0
  Rule ts fd = IsFilterRule everything parse_cidr parse_host ts fd

  -- From the protocol on.
  at_proto :
      (a d p w addr : Bytes) (ts : List Bytes)
      → a ≡ codes "permit"
      → (d ≡ codes "in") ⊎ (d ≡ codes "out")
      → (v : ℕ) → IsProto p v
      → Holds (Rule (a ∷ d ∷ p ∷ w ∷ addr ∷ ts)) (
          if is_word w (codes "from")
          then parse_src everything parse_cidr parse_host a d v addr ts
          else none)
  at_proto a d p w addr ts e i v k = elim (Bool-cases (is_word w (codes "from"))) [
    | inl f ↦
        let from : w ≡ codes "from" = (bytes_beq_iff w (codes "from")).0 f in
        rw f (
          Holds-bind (Net addr) (Rule (a ∷ d ∷ p ∷ w ∷ addr ∷ ts))
            (parse_flow_desc_ip_net everything parse_cidr parse_host addr)
            (λ n. parse_src_ports everything parse_cidr parse_host (started a d v n) ts)
            (parse_flow_desc_ip_net-Holds everything parse_cidr parse_host addr)
            (λ n h.
              parse_src_ports-Holds (Rule (a ∷ d ∷ p ∷ w ∷ addr ∷ ts)) a d v n ts
                (λ ws ps dw last m qs l s t q. record {
                  proto_word = p;
                  src_word = addr;
                  port_words = ws;
                  dst_word = dw;
                  last_words = last;
                  words = rw (e, from, l) refl;
                  action = e;
                  direction = i;
                  proto = k;
                  src = h;
                  src_ports = s;
                  dst = t;
                  dst_ports = q;
                })))
    | inr f ↦ rw f tt
  ]

  pub parse_tokens-Holds :
      (ts : List Bytes) → Holds (Rule ts) (parse_tokens everything parse_cidr parse_host ts)
  parse_tokens-Holds [] = tt
  parse_tokens-Holds (a ∷ []) = tt
  parse_tokens-Holds (a ∷ d ∷ []) = tt
  parse_tokens-Holds (a ∷ d ∷ p ∷ []) = tt
  parse_tokens-Holds (a ∷ d ∷ p ∷ w ∷ []) = tt
  parse_tokens-Holds (a ∷ d ∷ p ∷ w ∷ addr ∷ ts) = elim (Bool-cases (is_word a (codes "permit"))) [
    | inl e ↦ elim (Bool-cases (is_word d (codes "in") || is_word d (codes "out"))) [
      | inl f ↦
          rw (e, f)
            (Holds-bind (IsProto p) (Rule (a ∷ d ∷ p ∷ w ∷ addr ∷ ts)) (proto_of p)
              (λ v.
                if is_word w (codes "from")
                then parse_src everything parse_cidr parse_host a d v addr ts
                else none)
              (proto_of-Holds p)
              (at_proto a d p w addr ts ((bytes_beq_iff a (codes "permit")).0 e) (direction d f)))
      | inr f ↦ rw (e, f) tt
    ]
    | inr e ↦ rw e tt
  ]
