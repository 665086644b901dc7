-- ===== src/Userspace/Gtpu/RoundTrip.antt =====
-- internal/gtpv1/msg.go and userspace/pipeline.go: `decodeGTPU` on what `Encode` writes.
use mathlib.Core.List.{append_assoc}
use go_upf.Base.{
  Bool-cases, inl, inr, true, false, subst, ◌==◌, ==_iff, get_or, ltb, ◌^◌, ℕ, zero, suc, ◌+◌, ◌%◌,
  ◌<◌, ◌≡◌, refl, sym, ap, ◌∙◌, List, [], ◌∷◌, ◌++◌, arith, length, get_elem?, some, ◌-◌, ◌≤◌,
  length-append, drop, drop-length_append, get_elem?-append_length,
}
use go_upf.Gtpv1.{
  len, be16, be32, Message, PduSessionContainer, container_encode, container_len, exts_encode,
  exts_len, encode, optional, length-optional, length-exts_encode,
}
use go_upf.Userspace.Gtpu.{header_len, teid_of, ok, parse_ipv4_source, skip_extensions, decode_gtpu}

sub_one : (n : ℕ) → n + 1 - 1 ≡ n
sub_one n = omega arith

-- One extension header of one unit, which stands at `n`, is skipped.
skip_one :
    (fuel a n : ℕ) (p : List ℕ)
    → get_elem? p n ≡ some (suc a)
    → get_elem? p (n + 1) ≡ some 1
    → n + 5 ≤ length p
    → skip_extensions (suc fuel) p (n + 1) ≡ skip_extensions fuel p (n + 4 + 1)
unfolding skip_extensions
skip_one fuel a n p h k b = ground (arith, sub_one n, h, k)

-- The header ends at a type 0.
skip_end :
    (fuel n : ℕ) (p : List ℕ)
    → get_elem? p n ≡ some 0
    → skip_extensions (suc fuel) p (n + 1) ≡ ok (n + 1)
unfolding skip_extensions
skip_end fuel n p h = ground (arith, sub_one n)

-- The loop runs through all the extension headers that `Encode` wrote behind `pre`.
skip-encode :
    (es : List PduSessionContainer) (fuel : ℕ) (p pre payload : List ℕ)
    → p ≡ pre ++ (exts_encode es ++ 0 ∷ payload)
    → exts_len es < fuel
    → skip_extensions fuel p (length pre + 1) ≡ ok (length pre + exts_len es + 1)
unfolding container_encode container_len
skip-encode es zero p pre payload e h = elim h [ ]
skip-encode [] (suc fuel) p pre payload e h =
    skip_end fuel (length pre) p (rw e (get_elem?-append_length pre 0 payload _ refl))
    ∙ ap ok (omega arith)
skip-encode (x ∷ es) (suc fuel) p pre payload e h =
    skip_one fuel 132 (length pre) p (rw e (get_elem?-append_length pre _ _ _ refl)) second long
    ∙ (ap (λ n. skip_extensions fuel p (n + 1)) (sym grown)
        ∙ (skip-encode es fuel p (pre ++ written) payload moved (omega arith)
            ∙ ap ok (omega (arith, grown))))
  where
    written : List ℕ
    written = container_encode x

    grown : length (pre ++ written) ≡ length pre + 4
    grown = length-append pre written

    moved : p ≡ (pre ++ written) ++ (exts_encode es ++ 0 ∷ payload)
    moved = rw append_assoc e

    second : get_elem? p (length pre + 1) ≡ some 1
    second = rw (e ∙ sym (append_assoc pre (0x85 ∷ []) _)) (
        get_elem?-append_length (pre ++ 0x85 ∷ []) _ _ _
          (omega (arith, length-append pre (0x85 ∷ []))))

    long : length pre + 5 ≤ length p
    long = rw e (
        omega (
          arith,
          length-append pre (exts_encode (x ∷ es) ++ 0 ∷ payload),
          length-append (exts_encode es) (0 ∷ payload),
        ))

-- The bytes in front of the first extension header's type.
abbrev front : Message → List ℕ
front m = m.flags ∷ m.type ∷ (be16 (len m - 8) ++ (be32 m.teid ++ optional m))

front-length : (m : Message) → length (front m) ≡ 11
front-length m = omega (arith, length-optional m)

encode-front : (m : Message) → encode m ≡ front m ++ (exts_encode m.exts ++ 0 ∷ m.payload)
unfolding encode
encode-front m = refl

exts_len_nil : (m : Message) → m.exts ≡ [] → exts_len m.exts ≡ 0
exts_len_nil m e = rw e

length-encode_header : (m : Message) → length (encode m) ≡ 12 + exts_len m.exts + length m.payload
length-encode_header m = rw (encode-front m) (
    omega (
      arith,
      front-length m,
      length-append (front m) (exts_encode m.exts ++ 0 ∷ m.payload),
      length-append (exts_encode m.exts) (0 ∷ m.payload),
      length-exts_encode m.exts,
    ))

header_len-encode :
    (m : Message)
    → (m.flags % 8 ≡ 0 → m.exts ≡ [])
    → header_len (encode m) ≡ ok (12 + exts_len m.exts)
header_len-encode m consistent = elim (Bool-cases (get_or (encode m) 0 0 % 8 == 0)) [
  | inl e ↦ rw e (ap ok (omega (arith, exts_len_nil m (consistent (flags_of e)))))
  | inr e ↦ rw e (
      subst (λ n. skip_extensions (length (encode m)) (encode m) n ≡ ok (12 + exts_len m.exts))
        start
        (skip-encode m.exts _ (encode m) (front m) m.payload (encode-front m)
            (omega (arith, length-encode_header m))
          ∙ ap ok (omega (arith, front-length m))))
]
  where
    start : length (front m) + 1 ≡ 12
    start = omega (arith, front-length m)

    flags_of : ((get_or (encode m) 0 0 % 8 == 0) ≡ true) → m.flags % 8 ≡ 0
    flags_of e = (==_iff _ _).0 (unfold encode in e)

payload-encode : (m : Message) → drop (12 + exts_len m.exts) (encode m) ≡ m.payload
payload-encode m =
    rw (encode-front m ∙ regroup)
      (drop-length_append (front m ++ (exts_encode m.exts ++ 0 ∷ [])) m.payload _ counted)
  where
    regroup :
        front m ++ (exts_encode m.exts ++ 0 ∷ m.payload)
        ≡ (front m ++ (exts_encode m.exts ++ 0 ∷ [])) ++ m.payload
    regroup = simp append_assoc

    counted : 12 + exts_len m.exts ≡ length (front m ++ (exts_encode m.exts ++ 0 ∷ []))
    counted = omega (
      arith,
      front-length m,
      length-append (front m) (exts_encode m.exts ++ 0 ∷ []),
      length-append (exts_encode m.exts) (0 ∷ []),
      length-exts_encode m.exts,
    )

teid-encode : (m : Message) → m.teid < 2 ^ 32 → teid_of (encode m) ≡ m.teid
unfolding encode
teid-encode m h = omega arith

-- A message whose TEID fits 32 bits, and whose flags are not all clear in the lowest three bits
-- where it has extension headers, is decoded to its TEID and to its payload, byte for byte.
pub decode_gtpu-encode :
    (m : Message)
    → m.teid < 2 ^ 32
    → (m.flags % 8 ≡ 0 → m.exts ≡ [])
    → decode_gtpu (encode m)
      ≡ ok (record {
        teid = m.teid;
        inner_payload = m.payload;
        source_ip = parse_ipv4_source m.payload;
      })
unfolding decode_gtpu
decode_gtpu-encode m small consistent =
    rw (long, header_len-encode m consistent, within, payload-encode m, teid-encode m small)
  where
    long : ltb (length (encode m)) 12 ≡ false
    long = ground (arith, length-encode_header m)

    within : ltb (length (encode m)) (12 + exts_len m.exts) ≡ false
    within = ground (arith, length-encode_header m)
