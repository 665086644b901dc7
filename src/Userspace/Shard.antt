-- ===== src/Userspace/Shard.antt =====
-- internal/forwarder/userspace/runtime.go: the packets that are made of received bytes, and the worker
-- that gets them.
use go_upf.Base.{
  ◌<◌, Bool-cases, inl, inr, ℕ, ◌%◌, [], length, ltb, leb, ◌==◌, if◌then◌else◌, Bytes,
}
use go_upf.Userspace.Gtpu.{teid_of}
use go_upf.Userspace.Sdf.{
  PacketDirection, uplink, downlink, parsed, refused, parse_ipv4_packet_meta, ip_value,
}
use native.Mathlib.Nat.{mod-lt}
use go_upf.Userspace.Pipeline.{Packet}

-- `uplinkTEID` and `downlinkUEIP`.
unfoldable pub uplink_teid : Bytes → ℕ
uplink_teid p = if ltb (length p) 8 then 0 else teid_of p

unfoldable pub downlink_ue_ip : Bytes → Bytes
unfolding parse_ipv4_packet_meta
downlink_ue_ip p = elim (parse_ipv4_packet_meta p) [ refused e ↦ [] | parsed m ↦ m.dst_ip ]

-- The packets of `ProcessUplinkGTP` and `ProcessDownlinkIP`.
abbrev pub uplink_packet : Bytes → Packet
uplink_packet p = record {
  direction = uplink;
  seid_hint = 0;
  teid = uplink_teid p;
  ue_ip = [];
  payload = p;
}

abbrev pub downlink_packet : Bytes → Packet
downlink_packet p = record {
  direction = downlink;
  seid_hint = 0;
  teid = 0;
  ue_ip = downlink_ue_ip p;
  payload = p;
}

-- `shardForSEID` and `shardForTEID`.
unfoldable pub shard_for : ℕ → ℕ → ℕ
shard_for n workers = if leb workers 1 then 0 else n % workers

-- `shardForIPv4`.
unfoldable pub shard_for_ipv4 : Bytes → ℕ → ℕ
shard_for_ipv4 ip workers =
    if leb workers 1 then 0 else if length ip == 4 then ip_value ip % workers else 0

-- `workerIndexFor`.
unfoldable pub worker_index_for : Packet → ℕ → ℕ
unfolding shard_for shard_for_ipv4
worker_index_for p workers =
    if p.seid_hint == 0
    then (elim p.direction [
      | uplink ↦ (if p.teid == 0 then 0 else shard_for p.teid workers)
      | downlink ↦ shard_for_ipv4 p.ue_ip workers
    ])
    else shard_for p.seid_hint workers

shard_for-below : (n workers : ℕ) → 0 < workers → shard_for n workers < workers
unfolding shard_for
shard_for-below n workers h = elim (Bool-cases (leb workers 1)) [
  | inl e ↦ rw e h
  | inr e ↦ rw e (mod-lt n h)
]

shard_for_ipv4-below :
    (ip : Bytes) (workers : ℕ) → 0 < workers → shard_for_ipv4 ip workers < workers
unfolding shard_for_ipv4
shard_for_ipv4-below ip workers h = elim (Bool-cases (leb workers 1)) [
  | inl e ↦ rw e h
  | inr e ↦ rw e (elim (Bool-cases (length ip == 4)) [
    | inl f ↦ rw f (mod-lt (ip_value ip) h)
    | inr f ↦ rw f h
  ])
]

-- Where there are workers, every packet, of either direction and with or without a SEID, a TEID and
-- an address, is given to one of them: the index is below their number.
pub worker_index_for-below :
    (p : Packet) (workers : ℕ) → 0 < workers → worker_index_for p workers < workers
unfolding worker_index_for
worker_index_for-below p workers h = elim (Bool-cases (p.seid_hint == 0)) [
  | inl e ↦ rw e (by_key p.direction)
  | inr e ↦ rw e (shard_for-below p.seid_hint workers h)
]
  where
    by_teid : (if p.teid == 0 then 0 else shard_for p.teid workers) < workers
    by_teid = elim (Bool-cases (p.teid == 0)) [
      | inl e ↦ rw e h
      | inr e ↦ rw e (shard_for-below p.teid workers h)
    ]

    by_key :
        (d : PacketDirection)
        → (elim d as (λ x. ℕ) [
          | uplink ↦ (if p.teid == 0 then 0 else shard_for p.teid workers)
          | downlink ↦ shard_for_ipv4 p.ue_ip workers
        ])
          < workers
    by_key uplink = by_teid
    by_key downlink = shard_for_ipv4-below p.ue_ip workers h
