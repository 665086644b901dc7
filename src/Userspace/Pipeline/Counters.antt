-- ===== src/Userspace/Pipeline/Counters.antt =====
-- internal/forwarder/userspace/pipeline.go and stats.go: the counters of packets.
use go_upf.Base.{ℕ, ◌+◌, ◌%◌, ◌≡◌, arith, nat_eq}
use go_upf.Userspace.Sdf.{PacketDirection, uplink, downlink}
use go_upf.Userspace.State.{Stats, add_one}
use go_upf.Userspace.Pipeline.{seen, failed, missed, unsupported}

abbrev pub outcomes : Stats → ℕ
outcomes s = s.forwarded_packets + s.dropped_packets + s.buffered_packets

abbrev pub arrivals : Stats → ℕ
arrivals s = s.uplink_packets + s.downlink_packets

-- Each packet that came in was forwarded, dropped or buffered, as far as 64 bits count.
abbrev pub Balanced : Stats → Type 0
Balanced s = outcomes s % 18446744073709551616 ≡ arrivals s % 18446744073709551616

-- One packet came in that has no outcome yet.
abbrev pub Owed : Stats → Type 0
Owed s = (outcomes s + 1) % 18446744073709551616 ≡ arrivals s % 18446744073709551616

pub seen_lem : (d : PacketDirection) (s : Stats) → Balanced s → Owed (seen d s)
seen_lem uplink s h = omega (arith, h)
seen_lem downlink s h = omega (arith, h)

pub failed_lem : (d : PacketDirection) (s : Stats) → Owed s → Balanced (failed d s)
failed_lem uplink s h = omega (arith, h)
failed_lem downlink s h = omega (arith, h)

pub missed_lem : (d : PacketDirection) (s : Stats) → Owed s → Balanced (missed d s)
missed_lem uplink s h = omega (arith, h)
missed_lem downlink s h = omega (arith, h)

pub unsupported_lem : (s : Stats) → Owed s → Balanced (unsupported s)
unsupported_lem s h = omega (arith, h)

pub forwarded_lem :
    (s : Stats) → Owed s → Balanced (record s { forwarded_packets = add_one s.forwarded_packets })
forwarded_lem s h = omega (arith, h)

pub buffered_lem :
    (s : Stats) → Owed s → Balanced (record s { buffered_packets = add_one s.buffered_packets })
buffered_lem s h = omega (arith, h)

pub dropped_lem :
    (s : Stats) → Owed s → Balanced (record s { dropped_packets = add_one s.dropped_packets })
dropped_lem s h = omega (arith, h)
