-- ===== src/Forwarder/Gtp5g/Apply.antt =====
-- internal/forwarder/gtp5g.go: applyAction and WritePacket, which a FAR that leaves BUFF goes
-- through.
use go_upf.Base.{
  ℕ, zero, suc, Bool, false, Option, none, some, List, [], ◌∷◌, Bytes, length, ◌==◌, if◌then◌else◌,
}
use go_upf.Gtpv1.{Message, msg_type_tpdu, PduSessionContainer, encode}
use go_upf.Report.{act_drop, act_forw, act_buff}
use go_upf.Forwarder.Gtp5g.Kernel.{NlFar, NlCreation, Gtp5gnl, Handler, Gtp5g}

abbrev pub container_of : Option ℕ → List PduSessionContainer
container_of none = []
container_of (some qfi) = record { pdu_type = 0; qos_flow_id = qfi } ∷ []

-- The message of `WritePacket`.
abbrev pub buffered_message : NlCreation → Option ℕ → Bytes → Message
buffered_message hc qfi pkt = record {
  flags = 0x34;
  type = msg_type_tpdu;
  teid = hc.teid;
  sequence_number = 0;
  npdu_number = 0;
  exts = container_of qfi;
  payload = pkt;
}

module _ {K H : Type 0} (nl : Gtp5gnl K) (hd : Handler H) where
  abbrev pub write_created : Option NlCreation → Option ℕ → Bytes → K → Bool × K
  write_created none qfi pkt k = (false, k)
  write_created (some hc) qfi pkt k =
      nl.write_to (encode (buffered_message hc qfi pkt)) hc.peer_addr hc.port k

  -- `WritePacket`.
  unfoldable pub write_packet : NlFar → Option ℕ → Bytes → K → Bool × K
  write_packet far qfi pkt k = write_created far.creation qfi pkt k

  -- The first QER of the PDR that has a QFI; one that the kernel does not give is passed over.
  unfoldable pub pdr_qfi : ℕ → List ℕ → K → Option ℕ
  pdr_qfi seid [] k = none
  pdr_qfi seid (q ∷ qs) k =
      let rest = pdr_qfi seid qs k in
      elim (nl.get_qer_oid (record { seid = seid; id = q }) k) [
        | none ↦ rest
        | some qfi ↦ (if qfi == 0 then rest else some qfi)
      ]

  -- One round of a loop that pops: what is done with a packet, and then the rest.
  abbrev pub popped : (Bytes → K → K) → (K × H → K × H) → K → Option Bytes × H → K × H
  popped use_pkt next k (none, h) = (k, h)
  popped use_pkt next k (some pkt, h) = next (use_pkt pkt k, h)

  unfoldable pub pop_loop : ℕ → ℕ → ℕ → (Bytes → K → K) → K × H → K × H
  pop_loop zero seid pdrid use_pkt (k, h) = (k, h)
  pop_loop (suc fuel) seid pdrid use_pkt (k, h) =
      popped use_pkt (pop_loop fuel seid pdrid use_pkt) k (hd.pop_buf_pkt h seid pdrid)

  -- `for { … Pop … }` runs until nothing waits.
  unfoldable pub pop_all : ℕ → ℕ → (Bytes → K → K) → K × H → K × H
  unfolding pop_loop
  pop_all seid pdrid use_pkt (k, h) =
      pop_loop (suc (length (hd.queue h seid pdrid))) seid pdrid use_pkt (k, h)

  -- BUFF → DROP.
  unfoldable pub drop_pdrs : ℕ → List ℕ → K × H → K × H
  unfolding pop_all
  drop_pdrs seid [] s = s
  drop_pdrs seid (p ∷ ps) s = drop_pdrs seid ps (pop_all seid p (λ pkt k. k) s)

  abbrev pub forward_pdr : NlFar → ℕ → ℕ → Option (List ℕ) → K × H → K × H
  forward_pdr far seid pdrid none s = s
  forward_pdr far seid pdrid (some qer_ids) (k, h) =
      let qfi = pdr_qfi seid qer_ids k in
      pop_all seid pdrid (λ pkt k'. (write_packet far qfi pkt k').1) (k, h)

  -- BUFF → FORW.
  unfoldable pub forward_pdrs : NlFar → ℕ → List ℕ → K × H → K × H
  unfolding pop_all write_packet pdr_qfi
  forward_pdrs far seid [] s = s
  forward_pdrs far seid (p ∷ ps) (k, h) =
      forward_pdrs far seid ps
        (forward_pdr far seid p (nl.get_pdr_oid (record { seid = seid; id = p }) k) (k, h))

  abbrev pub apply_far : ℕ → ℕ → Option NlFar → K × H → K × H
  apply_far seid action none s = s
  apply_far seid action (some far) s =
      if act_buff far.action
      then if act_drop action
        then drop_pdrs seid far.pdr_ids s
        else if act_forw action
        then forward_pdrs far seid far.pdr_ids s
        else s
      else s

  -- `applyAction`.
  unfoldable pub apply_action : ℕ → ℕ → ℕ → Gtp5g K H → Gtp5g K H
  unfolding drop_pdrs forward_pdrs
  apply_action seid farid action g =
      let (k, h) =
        apply_far seid action (nl.get_far_oid (record { seid = seid; id = farid }) g.kernel)
          (g.kernel, g.handler) in
      record g { kernel = k; handler = h }
