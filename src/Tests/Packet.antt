-- ===== src/Tests/Packet.antt =====
-- GTP-U packets on concrete input.
use go_upf.Base.{◌≡◌, ◌^◌, refl, arith, [], ◌∷◌}
use go_upf.Gtpv1.{
  Message, encode, len, optional, has_sequence, has_npdu_number, container_len, container_encode,
}
use go_upf.Report.{set_reporting_trigger}
use go_upf.Report.Names.{
  rpt_liusa, usar_liusa, rpt_bit, same_name, with_trigger, usar_has,
  set_reporting_trigger-with_trigger,
}
use go_upf.Userspace.Gtpu.{ok, err, too_short, decode_gtpu, parse_ipv4_source}
use go_upf.Userspace.Gtpu.RoundTrip.{decode_gtpu-encode}
use go_upf.Userspace.Gtpu.Total.{Decodes, decode_gtpu_total}

-- A packet of three bytes with one PDU session container, as `WritePacket` sends it.
abbrev marked : Message
marked = record {
  flags = 0x34;
  type = 255;
  teid = 77;
  sequence_number = 0;
  npdu_number = 0;
  exts = record { pdu_type = 0; qos_flow_id = 9 } ∷ [];
  payload = 1 ∷ 2 ∷ 3 ∷ [];
}

encode-marked :
    encode marked
    ≡ 0x34 ∷ 255 ∷ 0 ∷ 11 ∷ 0 ∷ 0 ∷ 0 ∷ 77 ∷ 0 ∷ 0 ∷ 0 ∷ 0x85 ∷ 1 ∷ 0 ∷ 9 ∷ 0 ∷ 1 ∷ 2 ∷ 3 ∷ []
unfolding encode len optional has_sequence has_npdu_number container_len container_encode
encode-marked = refl

decode_gtpu-encode_example :
    decode_gtpu (encode marked)
    ≡ ok (record {
      teid = 77;
      inner_payload = 1 ∷ 2 ∷ 3 ∷ [];
      source_ip = parse_ipv4_source (1 ∷ 2 ∷ 3 ∷ []);
    })
decode_gtpu-encode_example =
    decode_gtpu-encode marked (omega arith) (λ h. absurd (omega (arith, h)))

decode_gtpu_short : decode_gtpu (1 ∷ 2 ∷ []) ≡ err too_short
unfolding decode_gtpu
decode_gtpu_short = refl

decode_gtpu_total_example : Decodes (encode marked) (decode_gtpu (encode marked))
decode_gtpu_total_example = decode_gtpu_total (encode marked)

-- LIUSA is the bit 7 of the one set and the bit 10 of the other.
set_reporting_trigger-with_trigger_example :
    usar_has (set_reporting_trigger 1 (2 ^ rpt_bit rpt_liusa)) usar_liusa
    ≡ with_trigger (same_name rpt_liusa) 1 usar_liusa
set_reporting_trigger-with_trigger_example =
    set_reporting_trigger-with_trigger rpt_liusa 1 usar_liusa
