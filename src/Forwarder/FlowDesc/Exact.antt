-- ===== src/Forwarder/FlowDesc/Exact.antt =====
-- internal/forwarder/flowdesc.go: which descriptions are accepted, and as what.
use go_upf.Base.{
  ℕ, ◌≡◌, ◌⊎◌, ◌↔◌, inl, inr, refl, sym, ap, ◌∙◌, subst, ◌||◌, true, Option, some, List, [], ◌∷◌,
  ◌++◌, Bytes, codes, fields,
}
use go_upf.Forwarder.FlowDesc.{
  FlowDesc, started, is_word, parse_flow_desc_ports, parse_dst, parse_src_ports, parse_src,
  parse_tokens, parse_flow_desc,
}
use go_upf.Forwarder.FlowDesc.Grammar.{SrcPorts, DstPorts, IsNet, IsFilterRule}
use go_upf.Forwarder.FlowDesc.Words.{
  Holds, parse_flow_desc_ports-IsPorts, DstPorts-last_ports, proto_of-IsProto,
  parse_flow_desc_ip_net-IsNet,
}
use go_upf.Forwarder.FlowDesc.Sound.{parse_tokens-Holds}

module _ {N : Type 0} (everything : N) (parse_cidr parse_host : Bytes → Option N) where
  abbrev Net : Bytes → N → Type 0
  Net t n = IsNet everything parse_cidr parse_host t n

  parse_dst-DstPorts :
      (fd : FlowDesc N) (d : Bytes) (last : List Bytes) (n : N) (qs : List (List ℕ))
      → Net d n
      → DstPorts last qs
      → parse_dst everything parse_cidr parse_host fd (codes "to" ∷ d ∷ last)
        ≡ some (record fd { dst = n; dst_ports = qs })
  parse_dst-DstPorts fd d last n qs h k =
      rw (parse_flow_desc_ip_net-IsNet everything parse_cidr parse_host d n h)
        (ap (λ ps. some (record fd { dst = n; dst_ports = ps })) (DstPorts-last_ports last qs k))

  parse_src_ports-SrcPorts :
      (a i : Bytes) (v : ℕ) (src : N) (ws : List Bytes) (ps : List (List ℕ)) (d : Bytes)
      (last : List Bytes) (n : N) (qs : List (List ℕ))
      → SrcPorts ws ps
      → Net d n
      → DstPorts last qs
      → parse_src_ports everything parse_cidr parse_host
          (started a i v src)
          (ws ++ codes "to" ∷ d ∷ last)
        ≡ some (record (started a i v src) { src_ports = ps; dst = n; dst_ports = qs })
  unfolding parse_flow_desc_ports
  parse_src_ports-SrcPorts a i v src [] ps d last n qs s h k =
      rw s (parse_dst-DstPorts (started a i v src) d last n qs h k)
  parse_src_ports-SrcPorts a i v src (t ∷ []) ps d last n qs s h k =
      rw (parse_flow_desc_ports-IsPorts t ps s, parse_src_ports)
        (parse_dst-DstPorts (record (started a i v src) { src_ports = ps }) d last n qs h k)
  parse_src_ports-SrcPorts a i v src (t ∷ u ∷ ts) ps d last n qs s h k = absurd s

  is_direction :
      (d : Bytes)
      → (d ≡ codes "in") ⊎ (d ≡ codes "out")
      → is_word d (codes "in") || is_word d (codes "out") ≡ true
  is_direction d (inl e) = rw e refl
  is_direction d (inr e) = rw e refl

  parse_src-IsNet :
      (a i : Bytes) (v : ℕ) (addr : Bytes) (n : N) (ts : List Bytes) (o : Option (FlowDesc N))
      → Net addr n
      → parse_src_ports everything parse_cidr parse_host (started a i v n) ts ≡ o
      → parse_src everything parse_cidr parse_host a i v addr ts ≡ o
  parse_src-IsNet a i v addr n ts o h e =
      rw (parse_flow_desc_ip_net-IsNet everything parse_cidr parse_host addr n h, parse_src) e

  abbrev Rule : List Bytes → FlowDesc N → Type 0
  Rule ts fd = IsFilterRule everything parse_cidr parse_host ts fd

  parse_tokens-IsFilterRule :
      (ts : List Bytes) (fd : FlowDesc N)
      → Rule ts fd
      → parse_tokens everything parse_cidr parse_host ts ≡ some fd
  parse_tokens-IsFilterRule ts fd r =
      rw (r.words, is_direction fd.dir r.direction, proto_of-IsProto r.proto_word fd.proto r.proto)
        (parse_src-IsNet (codes "permit") fd.dir fd.proto r.src_word fd.src _ _ r.src (
            parse_src_ports-SrcPorts (codes "permit") fd.dir fd.proto fd.src r.port_words
              fd.src_ports r.dst_word r.last_words fd.dst fd.dst_ports r.src_ports r.dst
              r.dst_ports)
          ∙ ap (λ a. some (record fd { action = a })) (sym r.action))

  -- A description is accepted as `fd` if and only if its words are these and say what `fd` holds:
  -- "permit", "in" or "out", a protocol ("ip" is 255), "from", an address, perhaps one word of ports,
  -- "to", an address, and perhaps more, of which the first word is taken for ports if it is one. A
  -- port or an end of a range is a number of 16 bits and the protocol one of 8.
  pub parse_flow_desc-IsFilterRule :
      (s : Bytes) (fd : FlowDesc N)
      → (parse_flow_desc everything parse_cidr parse_host s ≡ some fd)
        ↔ IsFilterRule everything parse_cidr parse_host (fields s) fd
  unfolding parse_flow_desc
  parse_flow_desc-IsFilterRule s fd = (
    λ e.
        subst (Holds (Rule (fields s))) e
          (parse_tokens-Holds everything parse_cidr parse_host (fields s)),
    parse_tokens-IsFilterRule (fields s) fd,
  )
