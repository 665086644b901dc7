-- ===== src/Forwarder/Gtp5g/Sent.antt =====
-- internal/forwarder/gtp5g.go: the packet that WritePacket hands to the link.
use go_upf.Base.{ℕ, ◌<◌, ◌^◌, ◌≡◌, refl, Bytes, Option, some, arith}
use go_upf.Gtpv1.{encode}
use go_upf.Userspace.Gtpu.{ok, parse_ipv4_source, decode_gtpu}
use go_upf.Userspace.Gtpu.RoundTrip.{decode_gtpu-encode}
use go_upf.Forwarder.Gtp5g.Kernel.{NlFar, NlCreation, Gtp5gnl, Handler}
use go_upf.Forwarder.Gtp5g.Apply.{buffered_message, write_packet}

-- For a FAR with an outer header whose TEID fits 32 bits, WritePacket writes to the header's peer and
-- port a message that decodes to this TEID and to the packet, with a QFI or without.
pub write_packet-decode_gtpu :
    {K H : Type 0} (nl : Gtp5gnl K) (hd : Handler H) (far : NlFar) (hc : NlCreation)
    (qfi : Option ℕ) (pkt : Bytes) (k : K)
    → far.creation ≡ some hc
    → hc.teid < 2 ^ 32
    → (b : Bytes) × (write_packet nl hd far qfi pkt k ≡ nl.write_to b hc.peer_addr hc.port k)
      × (decode_gtpu b
          ≡ ok (record { teid = hc.teid; inner_payload = pkt; source_ip = parse_ipv4_source pkt }))
unfolding write_packet
write_packet-decode_gtpu nl hd far hc qfi pkt k e small = (
  encode (buffered_message hc qfi pkt),
  rw e refl,
  decode_gtpu-encode (buffered_message hc qfi pkt) small (λ z. absurd (omega arith)),
)
