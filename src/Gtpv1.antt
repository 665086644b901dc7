-- ===== src/Gtpv1.antt =====
-- internal/gtpv1/msg.go: the GTPv1-U header that the packet path puts in front of a payload.
-- A byte is a number, and what is stored in a field of w bits is taken modulo 2 ^ w.
use go_upf.Base.{
  ℕ, zero, suc, ◌+◌, ◌-◌, ◌*◌, ◌/◌, ◌%◌, ◌^◌, ◌≡◌, refl, Bool, List, [], ◌∷◌, ◌++◌, arith, length,
  length-append, ◌==◌, if◌then◌else◌,
}

-- `x & (1 << k) != 0`.
abbrev pub has_bit : ℕ → ℕ → Bool
has_bit x k = x / 2 ^ k % 2 == 1

-- `binary.BigEndian.PutUint16` and `PutUint32`.
abbrev pub be16 : ℕ → List ℕ
be16 n = n / 256 % 256 ∷ n % 256 ∷ []

abbrev pub be32 : ℕ → List ℕ
be32 n = n / 16777216 % 256 ∷ n / 65536 % 256 ∷ n / 256 % 256 ∷ n % 256 ∷ []

abbrev pub msg_type_tpdu : ℕ
msg_type_tpdu = 255

-- The only `Encoder` of the repository.
pub record PduSessionContainer : Type 0 where
  pub pdu_type : ℕ
  pub qos_flow_id : ℕ

pub record Message : Type 0 where
  pub flags : ℕ
  pub type : ℕ
  pub teid : ℕ
  pub sequence_number : ℕ
  pub npdu_number : ℕ
  pub exts : List PduSessionContainer
  pub payload : List ℕ

unfoldable pub has_sequence : Message → Bool
has_sequence m = has_bit m.flags 1

unfoldable pub has_npdu_number : Message → Bool
has_npdu_number m = has_bit m.flags 0

unfoldable pub container_len : PduSessionContainer → ℕ
container_len e = 4

unfoldable pub container_encode : PduSessionContainer → List ℕ
container_encode e = 0x85 ∷ 1 ∷ (e.pdu_type * 16) % 256 ∷ e.qos_flow_id % 16 ∷ []

abbrev pub exts_len : List PduSessionContainer → ℕ
exts_len [] = 0
exts_len (e ∷ es) = container_len e + exts_len es

abbrev pub exts_encode : List PduSessionContainer → List ℕ
exts_encode [] = []
exts_encode (e ∷ es) = container_encode e ++ exts_encode es

-- `((l + 4) &^ 0x3) - 1`.
abbrev pub align : ℕ → ℕ
align l = (l + 4) / 4 * 4 - 1

abbrev pub optional_end : Message → ℕ
optional_end m = 8 + (if has_sequence m then 2 else 0) + (if has_npdu_number m then 1 else 0)

unfoldable pub len : Message → ℕ
unfolding has_sequence has_npdu_number container_len
len m = align (optional_end m) + exts_len m.exts + 1 + length m.payload

abbrev pub zeros : ℕ → List ℕ
zeros zero = []
zeros (suc n) = 0 ∷ zeros n

-- The optional fields and the bytes up to the alignment, which stay 0 in the fresh buffer.
unfoldable pub optional : Message → List ℕ
unfolding has_sequence has_npdu_number
optional m =
    (if has_sequence m then be16 m.sequence_number else [])
    ++ ((if has_npdu_number m then m.npdu_number ∷ [] else [])
        ++ zeros (align (optional_end m) - optional_end m))

-- What `Encode` writes to a zeroed buffer of `len m` bytes. It has no failing branch, since no
-- extension's `Encode` fails.
unfoldable pub encode : Message → List ℕ
encode m =
    m.flags
    ∷ m.type
    ∷ (be16 (len m - 8) ++ (be32 m.teid ++ (optional m ++ (exts_encode m.exts ++ 0 ∷ m.payload))))

pub length-exts_encode : (es : List PduSessionContainer) → length (exts_encode es) ≡ exts_len es
unfolding container_len container_encode
length-exts_encode [] = refl
length-exts_encode (e ∷ es) = omega (arith, length-exts_encode es)

pub length-optional : (m : Message) → length (optional m) ≡ 3
unfolding optional
length-optional m = ground arith

pub align_end : (m : Message) → align (optional_end m) ≡ 11
unfolding has_sequence has_npdu_number
align_end m = ground arith

-- `Encode` fills the buffer that `Len` asks for, byte for byte, whatever the flags and extensions.
pub length-encode : (m : Message) → length (encode m) ≡ len m
unfolding encode len
length-encode m = omega (
  arith,
  length-append (optional m) (exts_encode m.exts ++ 0 ∷ m.payload),
  length-append (exts_encode m.exts) (0 ∷ m.payload),
  length-optional m,
  length-exts_encode m.exts,
  align_end m,
)
