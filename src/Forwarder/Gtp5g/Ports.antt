-- ===== src/Forwarder/Gtp5g/Ports.antt =====
-- internal/forwarder/gtp5g.go: the ports of a flow description as `convertSlice` writes them.
use go_upf.Base.{
  ℕ, ◌+◌, ◌*◌, ◌/◌, ◌%◌, ◌<◌, ◌≡◌, refl, ap, ◌∙◌, some, Option, List, [], ◌∷◌, ◌++◌, map, arith,
  Bytes,
}
use go_upf.Forwarder.FlowDesc.{FlowDesc, parse_flow_desc}
use go_upf.Forwarder.FlowDesc.Ports.{PortsFit}
use go_upf.Forwarder.FlowDesc.Fits.{parse_flow_desc-IsFlow}
use go_upf.Forwarder.Gtp5g.Flow.{IpAndMask, le32, convert_slice}

-- A list of ports as a little-endian reader of 32-bit words sees it: the upper half of a word is
-- where a range begins, the lower half where it ends.
abbrev pub read_ports : Bytes → List (ℕ × ℕ)
read_ports (a ∷ b ∷ c ∷ d ∷ bs) = (c + d * 256, a + b * 256) ∷ read_ports bs
read_ports _ = []

-- A single port is a range of one.
abbrev pub range_of : List ℕ → ℕ × ℕ
range_of (p ∷ []) = (p, p)
range_of (p ∷ q ∷ []) = (p, q)
range_of _ = (0, 0)

halves :
    (p q : ℕ)
    → p < 65536
    → q < 65536
    → ((p * 65536 + q) / 65536 % 256 + (p * 65536 + q) / 16777216 % 256 * 256 ≡ p)
      × ((p * 65536 + q) % 256 + (p * 65536 + q) / 256 % 256 * 256 ≡ q)
halves p q h k = (omega arith, omega arith)

read-word :
    (p q : ℕ) (bs : Bytes)
    → p < 65536
    → q < 65536
    → read_ports (le32 (p * 65536 + q) ++ bs) ≡ (p, q) ∷ read_ports bs
read-word p q bs h k = let (e, f) = halves p q h k in rw (e, f) refl

read-convert_slice :
    (ps : List (List ℕ)) → PortsFit ps → read_ports (convert_slice ps) ≡ map range_of ps
unfolding convert_slice
read-convert_slice [] h = refl
read-convert_slice ([] ∷ ps) (h, t) = absurd h
read-convert_slice ((p ∷ []) ∷ ps) (h, t) =
    read-word p p (convert_slice ps) h h ∙ ap (◌∷◌ (p, p)) (read-convert_slice ps t)
read-convert_slice ((p ∷ q ∷ []) ∷ ps) ((h, k), t) =
    read-word p q (convert_slice ps) h k ∙ ap (◌∷◌ (p, q)) (read-convert_slice ps t)
read-convert_slice ((p ∷ q ∷ r ∷ rs) ∷ ps) (h, t) = absurd h

-- The ports of a flow description that is accepted, of either side, read back from the words that
-- are sent to the kernel: each entry begins and ends where the description says, and a single port
-- is a range of one.
pub parse_flow_desc-read_ports :
    (everything : IpAndMask) (parse_cidr parse_host : Bytes → Option IpAndMask) (s : Bytes)
    (fd : FlowDesc IpAndMask)
    → parse_flow_desc everything parse_cidr parse_host s ≡ some fd
    → (read_ports (convert_slice fd.src_ports) ≡ map range_of fd.src_ports)
      × (read_ports (convert_slice fd.dst_ports) ≡ map range_of fd.dst_ports)
parse_flow_desc-read_ports everything parse_cidr parse_host s fd e =
    let (a, d, p, src, dst) = parse_flow_desc-IsFlow everything parse_cidr parse_host s fd e in
    (read-convert_slice fd.src_ports src, read-convert_slice fd.dst_ports dst)
