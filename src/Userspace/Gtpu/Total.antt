-- ===== src/Userspace/Gtpu/Total.antt =====
-- internal/forwarder/userspace/pipeline.go: `decodeGTPU` on every packet.
use go_upf.Base.{
  ℕ, zero, suc, ◌+◌, ◌-◌, ◌*◌, ◌≤◌, ◌<◌, ◌≡◌, refl, Bool-cases, inl, inr, some, List, [], ◌∷◌,
  arith, length, get_elem?, drop, ltb, ◌==◌, ◌||◌, get_or, ◌%◌,
}
use go_upf.Userspace.Gtpu.{
  Result, ok, err, Error, index_out_of_range, out_of_fuel, DecodedGtpu, skip_extensions, header_len,
  strip, decode_gtpu,
}

-- A refusal that the source returns, and not a panic or the end of the model's fuel.
abbrev pub IsRefusal : Error → Type 0
IsRefusal index_out_of_range = ⊥
IsRefusal out_of_fuel = ⊥
IsRefusal _ = Unit {0}

abbrev Fits : List ℕ → Result ℕ → Type 0
Fits p (ok h) = (12 ≤ h) × (h ≤ length p)
Fits p (err e) = IsRefusal e

get_elem?_within : (xs : List ℕ) (i : ℕ) → i < length xs → (x : ℕ) × (get_elem? xs i ≡ some x)
get_elem?_within [] i h = elim h [ ]
get_elem?_within (x ∷ xs) zero h = (x, refl)
get_elem?_within (x ∷ xs) (suc i) h = get_elem?_within xs i (omega arith)

skip_extensions-Fits :
    (fuel h : ℕ) (p : List ℕ)
    → 12 ≤ h
    → h ≤ length p
    → length p < fuel + h
    → Fits p (skip_extensions fuel p h)
unfolding skip_extensions
skip_extensions-Fits zero h p lo hi f = absurd (omega arith)
skip_extensions-Fits (suc fuel) h p lo hi f =
    let (next, e) = get_elem?_within p (h - 1) (omega arith) in
    rw (e, skip_extensions)
      (elim (Bool-cases (next == 0)) [
        | inl z ↦ rw z (lo, hi)
        | inr z ↦ rw z (elim (Bool-cases (ltb (length p) (h + 1))) [
          | inl t ↦ rw t tt
          | inr t ↦ rw t (
              let (x, k) = get_elem?_within p h (ground arith) in
              rw k (elim (Bool-cases (x * 4 == 0 || ltb (length p) (h + x * 4))) [
                | inl bad ↦ rw bad tt
                | inr good ↦ rw good (
                    skip_extensions-Fits fuel (h + x * 4) p (omega arith) (ground arith)
                      (ground arith))
              ]))
        ])
      ])

abbrev pub Decodes : List ℕ → Result DecodedGtpu → Type 0
Decodes p (ok d) = (h : ℕ) × (12 ≤ h) × (h ≤ length p) × (d.inner_payload ≡ drop h p)
Decodes p (err e) = IsRefusal e

header_len-Fits : (p : List ℕ) → 12 ≤ length p → Fits p (header_len p)
header_len-Fits p h = elim (Bool-cases (get_or p 0 0 % 8 == 0)) [
  | inl e ↦ rw e (omega arith, h)
  | inr e ↦ rw e (skip_extensions-Fits (length p) 12 p (omega arith) h (omega arith))
]

strip-Decodes : (p : List ℕ) (r : Result ℕ) → Fits p r → Decodes p (strip p r)
strip-Decodes p (err e) f = f
strip-Decodes p (ok h) (lo, hi) = elim (Bool-cases (ltb (length p) h)) [
  | inl e ↦ absurd (ground arith)
  | inr e ↦ rw e (h, lo, hi, refl)
]

-- Every packet is either refused by one of the errors of the source, or decoded to the rest of it
-- behind a header of at least 12 bytes that lies within the packet: no index is out of range, and
-- fuel of the packet's length is enough for the loop.
pub decode_gtpu_total : (p : List ℕ) → Decodes p (decode_gtpu p)
unfolding decode_gtpu
decode_gtpu_total p = elim (Bool-cases (ltb (length p) 12)) [
  | inl e ↦ rw e tt
  | inr e ↦ rw e (strip-Decodes p (header_len p) (header_len-Fits p (ground arith)))
]
