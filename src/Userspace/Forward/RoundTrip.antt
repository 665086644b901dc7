-- ===== src/Userspace/Forward/RoundTrip.antt =====
-- internal/forwarder/userspace/pipeline.go: `decodeGTPU` on what `encodeGTPU` sends.
use go_upf.Base.{
  ℕ, ◌%◌, ◌^◌, ◌<◌, Bool, true, false, Option, some, [], ◌≡◌, refl, ◌==◌, if◌then◌else◌, Bool-cases,
  inl, inr, Bytes, arith,
}
use go_upf.Gtpv1.{encode}
use go_upf.Userspace.Gtpu.{decode_gtpu, ok, parse_ipv4_source}
use go_upf.Userspace.Gtpu.RoundTrip.{decode_gtpu-encode}
use go_upf.Userspace.Rule.{OuterHeaderCreation}
use go_upf.Userspace.Binding.{PdrBinding}
use go_upf.Userspace.Forward.{
  PacketOutcome, gtpu, outer_header, first_qfi, gtpu_message, encode_gtpu, peer_of, forward_uplink,
  forward_downlink, plain_outcome,
}

consistent :
    (h : OuterHeaderCreation) (qfi : ℕ) (payload : Bytes) (up : Bool)
    → (gtpu_message h qfi payload up).flags % 8 ≡ 0
    → (gtpu_message h qfi payload up).exts ≡ []
unfolding gtpu_message
consistent h qfi payload up e = elim (Bool-cases (qfi == 0)) [
  | inl t ↦ rw t refl
  | inr f ↦ elim (impossible f e) [ ]
]
  where
    impossible : (qfi == 0) ≡ false → (if qfi == 0 then 0x30 else 0x34) % 8 ≡ 0 → (1 < 0)
    impossible f e = ground (arith, f, e)

decode_message :
    (h : OuterHeaderCreation) (qfi : ℕ) (payload : Bytes) (up : Bool)
    → h.teid < 2 ^ 32
    → decode_gtpu (encode (gtpu_message h qfi payload up))
      ≡ ok
          (record { teid = h.teid; inner_payload = payload; source_ip = parse_ipv4_source payload })
unfolding gtpu_message
decode_message h qfi payload up small =
    decode_gtpu-encode (gtpu_message h qfi payload up) small (consistent h qfi payload up)

encode_gtpu-message :
    (b : PdrBinding) (h : OuterHeaderCreation) (payload : Bytes) (up : Bool)
    → outer_header b ≡ some h
    → encode_gtpu b payload up
      ≡ some (encode (gtpu_message h (first_qfi b.qers) payload up), peer_of h)
unfolding encode_gtpu
encode_gtpu-message b h payload up e = rw (encode_gtpu, e) refl

-- What is sent for a packet that a FAR with an outer header forwards.
abbrev pub IsTunnelled : PdrBinding → OuterHeaderCreation → Bytes → Option PacketOutcome → Type 0
IsTunnelled b h payload o =
    (bytes : Bytes) × (o
      ≡ some (record (plain_outcome b payload) {
        format = gtpu;
        payload = bytes;
        peer = some (peer_of h);
      }))
    × (decode_gtpu bytes
        ≡ ok (record {
          teid = h.teid;
          inner_payload = payload;
          source_ip = parse_ipv4_source payload;
        }))

-- A packet whose binding creates an outer header with a TEID of 32 bits is sent, on the uplink as on
-- the downlink and with a QoS flow or without, to the peer of that header as bytes that
-- `decodeGTPU` takes back to this TEID and to the packet itself.
pub forward-decode_gtpu :
    (b : PdrBinding) (h : OuterHeaderCreation) (payload : Bytes)
    → outer_header b ≡ some h
    → h.teid < 2 ^ 32
    → IsTunnelled b h payload (forward_uplink b payload)
      × IsTunnelled b h payload (forward_downlink b payload)
unfolding forward_uplink forward_downlink
forward-decode_gtpu b h payload e small = (
  rw (forward_uplink, e) (rw (encode_gtpu-message b h payload true e) (sent true)),
  rw (forward_downlink, e) (rw (encode_gtpu-message b h payload false e) (sent false)),
)
  where
    sent :
        (up : Bool)
        → IsTunnelled b h payload (
            some (record (plain_outcome b payload) {
              format = gtpu;
              payload = encode (gtpu_message h (first_qfi b.qers) payload up);
              peer = some (peer_of h);
            }))
    sent up = (
      encode (gtpu_message h (first_qfi b.qers) payload up),
      refl,
      decode_message h (first_qfi b.qers) payload up small,
    )
