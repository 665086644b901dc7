-- ===== src/Pfcp/Sess/RefCount.antt =====
-- internal/pfcp/node.go: the number `refPdrNum` of a URR, and the PDRs that use it.
use go_upf.Base.{
  member, Distinct, ℕ, ◌+◌, ◌%◌, ◌^◌, ◌<◌, ◌≡◌, refl, sym, ◌∙◌, Bool, true, false, none, some, List,
  [], ◌∷◌, arith, Assoc, lookup, insert, delete, lookup-insert, ◌==◌, ==_iff, if◌then◌else◌,
  Bool-cases, Option-cases, inl, inr, is_some, nat_eq, subst,
}
use go_upf.Pfcp.Sess.{UrrInfo, IdSet, has, bump, bump_all, keys, set_of}

-- The number of PDRs that use a URR.
abbrev pub uses : Assoc ℕ IdSet → ℕ → ℕ
uses [] u = 0
uses ((p, ids) ∷ m) u = (if has ids u then 1 else 0) + uses m u

abbrev pub one_if : Bool → ℕ
one_if b = if b then 1 else 0

pub has-keys : (ids : IdSet) (u : ℕ) → member u (keys ids) ≡ has ids u
has-keys [] u = refl
has-keys ((v, _) ∷ ids) u = ground (arith, has-keys ids u)

pub uses-insert_fresh :
    (m : Assoc ℕ IdSet) (p u : ℕ) (ids : IdSet)
    → lookup p m ≡ none
    → uses (insert p ids m) u ≡ uses m u + one_if (has ids u)
uses-insert_fresh [] p u ids h = omega arith
uses-insert_fresh ((q, vs) ∷ m) p u ids h = ground (arith, uses-insert_fresh m p u ids)

pub uses-delete_fresh :
    (m : Assoc ℕ IdSet) (p u : ℕ) → member p (keys m) ≡ false → uses (delete p m) u ≡ uses m u
uses-delete_fresh [] p u h = refl
uses-delete_fresh ((q, vs) ∷ m) p u h = ground (arith, uses-delete_fresh m p u)

pub uses-delete :
    (m : Assoc ℕ IdSet) (p u : ℕ) (ids : IdSet)
    → Distinct (keys m)
    → lookup p m ≡ some ids
    → uses (delete p m) u + one_if (has ids u) ≡ uses m u
uses-delete [] p u ids d h = cc
uses-delete ((q, vs) ∷ m) p u ids d h = elim (Bool-cases (q == p)) [
  | inl e ↦ rw e (ground (arith, uses-delete_fresh m p u, d.0, h))
  | inr e ↦ rw e (ground (arith, uses-delete m p u ids d.1))
]

-- The count of a URR, 0 where it is not known.
abbrev pub ref_num : Assoc ℕ UrrInfo → ℕ → ℕ
ref_num m u = elim (lookup u m) [ none ↦ 0 | some info ↦ info.ref_pdr_num ]

abbrev pub known : Assoc ℕ UrrInfo → ℕ → Bool
known m u = is_some (lookup u m)

pub known-bump : (m : Assoc ℕ UrrInfo) (v u : ℕ) → known (bump m v) u ≡ known m u
known-bump m v u = elim (Option-cases (lookup v m)) [
  | inl e ↦ ground (arith, e)
  | inr (info, e) ↦ ground (
    arith,
    lookup-insert v u (record info { ref_pdr_num = (info.ref_pdr_num + 1) % 2 ^ 16 }) m,
    e,
    ==_iff v u,
  )
]

pub ref_num-bump :
    (m : Assoc ℕ UrrInfo) (v u : ℕ)
    → ref_num m u + one_if (u == v) < 65536
    → known m u ≡ true
    → ref_num (bump m v) u ≡ ref_num m u + one_if (u == v)
ref_num-bump m v u h k = elim (Option-cases (lookup v m)) [
  | inl e ↦ ground (arith, e, ==_iff u v)
  | inr (info, e) ↦ ground (
    arith,
    lookup-insert v u (record info { ref_pdr_num = (info.ref_pdr_num + 1) % 2 ^ 16 }) m,
    e,
    ==_iff v u,
  )
]

pub known-bump_all :
    (m : Assoc ℕ UrrInfo) (vs : List ℕ) (u : ℕ) → known (bump_all m vs) u ≡ known m u
known-bump_all m [] u = refl
known-bump_all m (v ∷ vs) u = known-bump_all (bump m v) vs u ∙ known-bump m v u

pub ref_num-bump_all :
    (m : Assoc ℕ UrrInfo) (vs : List ℕ) (u : ℕ)
    → Distinct vs
    → ref_num m u + one_if (member u vs) < 65536
    → known m u ≡ true
    → ref_num (bump_all m vs) u ≡ ref_num m u + one_if (member u vs)
ref_num-bump_all m [] u d h k = omega arith
ref_num-bump_all m (v ∷ vs) u (out, d) h k = elim (Bool-cases (u == v)) [
  | inl e ↦
      let gone : member u vs ≡ false =
        subst (λ x. member x vs ≡ false) (sym ((==_iff u v).0 e)) out in
      ref_num-bump_all (bump m v) vs u d (ground (arith, e, gone, h, k, ref_num-bump m v u))
        (known-bump m v u ∙ k)
      ∙ ground (arith, e, gone, h, k, ref_num-bump m v u)
  | inr e ↦
      ref_num-bump_all (bump m v) vs u d (ground (arith, e, h, k, ref_num-bump m v u))
        (known-bump m v u ∙ k)
      ∙ ground (arith, e, h, k, ref_num-bump m v u)
]

pub has-set_of :
    (acc : IdSet) (vs : List ℕ) (u : ℕ)
    → has (set_of acc vs) u ≡ (if has acc u then true else member u vs)
has-set_of acc [] u = ground arith
has-set_of acc (v ∷ vs) u =
    has-set_of (insert v tt acc) vs u
    ∙ ground (arith, lookup-insert v u tt acc, ==_iff u v, ==_iff v u)

-- The keys of a map are distinct as long as they come by `insert` and `delete`.
pub member-keys-insert :
    {V : Type 0} (m : Assoc ℕ V) (k u : ℕ) (v : V)
    → member u (keys (insert k v m)) ≡ (if u == k then true else member u (keys m))
member-keys-insert [] k u v = refl
member-keys-insert ((j, w) ∷ m) k u v =
    ground (arith, member-keys-insert m k u v, ==_iff j k, ==_iff u k, ==_iff u j)

pub Distinct-keys-insert :
    {V : Type 0} (m : Assoc ℕ V) (k : ℕ) (v : V)
    → Distinct (keys m)
    → Distinct (keys (insert k v m))
Distinct-keys-insert [] k v d = (refl, tt)
Distinct-keys-insert ((j, w) ∷ m) k v d = elim (Bool-cases (j == k)) [
  | inl e ↦ rw e (ground (arith, d, ==_iff j k))
  | inr e ↦ rw e (ground (arith, member-keys-insert m k j v, e, d), Distinct-keys-insert m k v d.1)
]

pub Distinct-set_of :
    (acc : IdSet) (vs : List ℕ) → Distinct (keys acc) → Distinct (keys (set_of acc vs))
Distinct-set_of acc [] d = d
Distinct-set_of acc (v ∷ vs) d =
    Distinct-set_of (insert v tt acc) vs (Distinct-keys-insert acc v tt d)

pub member-keys-delete :
    {V : Type 0} (m : Assoc ℕ V) (k u : ℕ)
    → member u (keys m) ≡ false
    → member u (keys (delete k m)) ≡ false
member-keys-delete [] k u h = refl
member-keys-delete ((j, w) ∷ m) k u h = ground (arith, member-keys-delete m k u, h)

pub Distinct-keys-delete :
    {V : Type 0} (m : Assoc ℕ V) (k : ℕ) → Distinct (keys m) → Distinct (keys (delete k m))
Distinct-keys-delete [] k d = tt
Distinct-keys-delete ((j, w) ∷ m) k d = elim (Bool-cases (j == k)) [
  | inl e ↦ rw e (Distinct-keys-delete m k d.1)
  | inr e ↦ rw e (member-keys-delete m k j d.0, Distinct-keys-delete m k d.1)
]
