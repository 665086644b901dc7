-- ===== src/Base/Texts.antt =====
-- Texts as lists of codes, and what the code uses of Go's packages strings and strconv, on ASCII.
use Prim.Native.Nat.{ℕ, ◌+◌, ◌-◌, ◌*◌}
use Prim.Native.Char.{code}
use Prim.Native.String.{String}
use mathlib.Core.Path.{◌≡◌, refl, ap₂, subst}
use mathlib.Core.Logic.{◌↔◌}
use mathlib.Core.Bool.{Bool, true, false, ◌&&◌, ◌||◌}
use mathlib.Core.List.{List, [], ◌∷◌, ◌++◌, map}
use mathlib.Core.Option.{Option, none, some}
use native.Mathlib.Omega.{arith}
use go_upf.Base.Tests.{ltb, leb, ◌==◌, if◌then◌else◌, Eq}

abbrev pub Bytes : Type 0
Bytes = List ℕ

abbrev pub codes : String → Bytes
codes String.[] = []
codes (String.◌∷◌ c s) = code c ∷ codes s

abbrev pub bytes_beq : Bytes → Bytes → Bool
bytes_beq [] [] = true
bytes_beq [] (y ∷ ys) = false
bytes_beq (x ∷ xs) [] = false
bytes_beq (x ∷ xs) (y ∷ ys) = let rest = bytes_beq xs ys in if x == y then rest else false

bytes_beq_refl : (xs : Bytes) → bytes_beq xs xs ≡ true
bytes_beq_refl [] = refl
bytes_beq_refl (x ∷ xs) = ground (arith, bytes_beq_refl xs)

bytes_beq_eq : (xs ys : Bytes) → bytes_beq xs ys ≡ true → xs ≡ ys
bytes_beq_eq [] [] h = refl
bytes_beq_eq [] (y ∷ ys) h = cc
bytes_beq_eq (x ∷ xs) [] h = cc
bytes_beq_eq (x ∷ xs) (y ∷ ys) h =
    ap₂ ◌∷◌ (ground (arith, h)) (bytes_beq_eq xs ys (ground (arith, h)))

pub bytes_beq_iff : (xs ys : Bytes) → (bytes_beq xs ys ≡ true) ↔ (xs ≡ ys)
bytes_beq_iff xs ys =
    (bytes_beq_eq xs ys, λ e. subst (λ zs. bytes_beq xs zs ≡ true) e (bytes_beq_refl xs))

instance abbrev pub bytes_eq : Eq Bytes
bytes_eq = record { beq = bytes_beq; beq_iff = bytes_beq_iff }

-- `strings.ToLower` of one letter.
abbrev pub lower : ℕ → ℕ
lower c = if leb b'A' c && leb c b'Z' then c + 32 else c

abbrev pub to_lower : Bytes → Bytes
to_lower s = map lower s

-- `strings.EqualFold`.
abbrev pub equal_fold : Bytes → Bytes → Bool
equal_fold s t = bytes_beq (to_lower s) (to_lower t)

abbrev pub is_space : ℕ → Bool
is_space c = c == b' ' || (leb 9 c && leb c 13)

abbrev pub add_part : Bytes → List Bytes → List Bytes
add_part [] parts = parts
add_part (c ∷ s) parts = (c ∷ s) ∷ parts

-- `strings.Fields`: the word that is being read, and the rest.
abbrev pub fields_from : Bytes → Bytes → List Bytes
fields_from word [] = add_part word []
fields_from word (c ∷ s) =
    let here = fields_from [] s in
    let longer = fields_from (word ++ c ∷ []) s in if is_space c then add_part word here else longer

abbrev pub fields : Bytes → List Bytes
fields s = fields_from [] s

-- `strings.Split` at one character.
abbrev pub split_from : ℕ → Bytes → Bytes → List Bytes
split_from sep part [] = part ∷ []
split_from sep part (c ∷ s) =
    let here = split_from sep [] s in
    let longer = split_from sep (part ++ c ∷ []) s in if c == sep then part ∷ here else longer

abbrev pub split : ℕ → Bytes → List Bytes
split sep s = split_from sep [] s

-- `strings.SplitN(s, sep, 2)`: what stands before the first separator, and what after it, if any.
abbrev pub cut_from : ℕ → Bytes → Bytes → Bytes × Option Bytes
cut_from sep part [] = (part, none)
cut_from sep part (c ∷ s) =
    let longer = cut_from sep (part ++ c ∷ []) s in if c == sep then (part, some s) else longer

abbrev pub cut : ℕ → Bytes → Bytes × Option Bytes
cut sep s = cut_from sep [] s

-- `strconv.ParseUint(s, 10, w)` for w < 64; `bound` is 2 ^ w.
abbrev pub parse_digits : ℕ → ℕ → Bytes → Option ℕ
parse_digits bound n [] = if ltb n bound then some n else none
parse_digits bound n (c ∷ s) =
    let rest = parse_digits bound (n * 10 + (c - b'0')) s in
    if leb b'0' c && leb c b'9' then rest else none

abbrev pub parse_uint : ℕ → Bytes → Option ℕ
parse_uint bound [] = none
parse_uint bound (c ∷ s) = parse_digits bound 0 (c ∷ s)
