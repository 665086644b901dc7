-- ===== src/Userspace/Gtpu.antt =====
-- internal/forwarder/userspace/pipeline.go: taking a GTP-U header off a received packet.
pub mod RoundTrip
pub mod Total
use go_upf.Base.{
  ℕ, zero, suc, ◌+◌, ◌-◌, ◌*◌, ◌/◌, ◌%◌, ◌≡◌, refl, Bool, true, false, not, ◌||◌, Option, none,
  some, List, [], ◌∷◌, length, get_elem?, get_or, drop, take, ltb, ◌==◌, if◌then◌else◌,
}

-- The errors of `decodeGTPU`. `index_out_of_range` is a panic of the Go runtime, and `out_of_fuel`
-- is the model's own.
pub data Error : Type 0 where
  too_short truncated_extension invalid_extension_length header_exceeds_payload : Error
  index_out_of_range out_of_fuel : Error

pub data Result (A : Type 0) : Type 0 where
  ok : A → Result A
  err : Error → Result A

pub record DecodedGtpu : Type 0 where
  pub teid : ℕ
  pub inner_payload : List ℕ
  pub source_ip : Option (List ℕ)

-- The address of four bytes at a position, or nil where the packet is not IPv4.
abbrev pub ipv4_at : ℕ → List ℕ → Option (List ℕ)
ipv4_at i payload =
    if ltb (length payload) 20 || not (get_or payload 0 0 / 16 == 4)
    then none
    else some (take 4 (drop i payload))

unfoldable pub parse_ipv4_source : List ℕ → Option (List ℕ)
parse_ipv4_source payload = ipv4_at 12 payload

unfoldable pub parse_ipv4_destination : List ℕ → Option (List ℕ)
parse_ipv4_destination payload = ipv4_at 16 payload

-- `binary.BigEndian.Uint32(b[4:8])`, where the caller has checked the length.
abbrev pub teid_of : List ℕ → ℕ
teid_of b = get_or b 4 0 * 16777216 + get_or b 5 0 * 65536 + get_or b 6 0 * 256 + get_or b 7 0

-- The loop over the extension headers: the length of the header that ends at the type 0. An
-- extension is at least 4 bytes long, so fuel of the packet's length is enough.
unfoldable pub skip_extensions : ℕ → List ℕ → ℕ → Result ℕ
skip_extensions zero p h = err out_of_fuel
skip_extensions (suc fuel) p h = elim (get_elem? p (h - 1)) [
  | none ↦ err index_out_of_range
  | some next ↦ elim (next == 0) [
    | true ↦ ok h
    | false ↦ elim (ltb (length p) (h + 1)) [
      | true ↦ err truncated_extension
      | false ↦ elim (get_elem? p h) [
        | none ↦ err index_out_of_range
        | some e ↦ elim (e * 4 == 0 || ltb (length p) (h + e * 4)) [
          | true ↦ err invalid_extension_length
          | false ↦ skip_extensions fuel p (h + e * 4)
        ]
      ]
    ]
  ]
]

abbrev pub header_len : List ℕ → Result ℕ
header_len p = if get_or p 0 0 % 8 == 0 then ok 12 else skip_extensions (length p) p 12

abbrev pub strip : List ℕ → Result ℕ → Result DecodedGtpu
strip p (err e) = err e
strip p (ok h) =
    if ltb (length p) h
    then err header_exceeds_payload
    else ok (record {
      teid = teid_of p;
      inner_payload = drop h p;
      source_ip = parse_ipv4_source (drop h p);
    })

unfoldable pub decode_gtpu : List ℕ → Result DecodedGtpu
unfolding skip_extensions
decode_gtpu p = if ltb (length p) 12 then err too_short else strip p (header_len p)
