-- ===== src/Userspace/Binding/Choice.antt =====
-- internal/forwarder/userspace/runtime.go: which binding a packet gets.
use mathlib.Core.List.Perm
use mathlib.Core.Logic.Or
use mathlib.Core.List.{
  Mem, Perm, not-mem-nil, mem-cons_self, mem-cons_of_mem, eq-or-mem_of_mem-cons,
}
use go_upf.Base.{
  ℕ, ◌<◌, true, false, ◌&&◌, ◌||◌, Option, none, some, List, [], ◌∷◌, length, ◌≡◌, ◌≢◌, refl, sym,
  ◌∙◌, subst, Bool, ltb, arith, Assoc, ◌==◌, if◌then◌else◌, Bool-cases, inl, inr, Bytes, bytes_eq,
}
use go_upf.Userspace.Rule.{SessionState}
use go_upf.Userspace.Sdf.{PacketMeta, downlink, match_sdf}
use go_upf.Userspace.Binding.{
  PdrBinding, precedence_of, comes_before, downlink_key, sort_bindings, first_match, match_downlink,
  build_runtime_snapshot, bindings_at,
}
use go_upf.Userspace.Binding.Sort.{NoneBefore, IsSorted, sort_bindings-IsSorted, sort_bindings-perm}
use go_upf.Userspace.Binding.Index.{keyed_bindings, build_runtime_snapshot_lem}

-- The packet matches the binding's SDF filters on the downlink.
abbrev pub FitsBinding : Option PacketMeta → PdrBinding → Type 0
FitsBinding m b = match_sdf b.pdr m downlink ≡ true

abbrev pub All : (PdrBinding → Type 0) → List PdrBinding → Type 0
All P [] = Unit {0}
All P (b ∷ bs) = P b × All P bs

All-of :
    (P : PdrBinding → Type 0) (l : List PdrBinding) → ((c : PdrBinding) → Mem c l → P c) → All P l
All-of P [] h = tt
All-of P (b ∷ bs) h = (h b mem-cons_self, All-of P bs (λ c i. h c (mem-cons_of_mem b i)))

-- The one has the greater precedence value, or an equal one and the smaller identifier.
abbrev pub outranks : PdrBinding → PdrBinding → Bool
outranks c b =
    ltb (precedence_of b.pdr) (precedence_of c.pdr)
    || (precedence_of b.pdr == precedence_of c.pdr && ltb c.pdr.id b.pdr.id)

comes_before-outranks : (c b : PdrBinding) → comes_before c b ≡ outranks c b
unfolding comes_before
comes_before-outranks c b = ground arith

-- What a search of the list has to answer: a binding of the list that fits, such that none that fits
-- outranks it, or nothing where none fits.
abbrev pub IsAnswer : List PdrBinding → Option PacketMeta → Option PdrBinding → Type 0
IsAnswer l m none = All (λ c. match_sdf c.pdr m downlink ≡ false) l
IsAnswer l m (some b) =
    Mem b l × FitsBinding m b × All (λ c. (match_sdf c.pdr m downlink && outranks c b) ≡ false) l

abbrev IsChoice : List PdrBinding → Option PacketMeta → Option PdrBinding → Type 0
IsChoice l m none = (c : PdrBinding) → Mem c l → match_sdf c.pdr m downlink ≡ false
IsChoice l m (some b) =
    Mem b l
    × FitsBinding m b
    × ((c : PdrBinding) → Mem c l → FitsBinding m c → comes_before c b ≡ false)

NoneBefore-mem :
    (b : PdrBinding) (l : List PdrBinding)
    → NoneBefore b l
    → (c : PdrBinding) → Mem c l
    → comes_before c b ≡ false
NoneBefore-mem b [] n c m = absurd (not-mem-nil m)
NoneBefore-mem b (x ∷ xs) (n, ns) c m =
    Or.elim (hlevel) (eq-or-mem_of_mem-cons m)
      (λ e. subst (λ y. comes_before y b ≡ false) (sym e) n) (λ i. NoneBefore-mem b xs ns c i)

comes_before_self : (b : PdrBinding) → comes_before b b ≡ false
unfolding comes_before
comes_before_self b = ground arith

first_is_best :
    (b : PdrBinding) (bs : List PdrBinding)
    → NoneBefore b bs
    → (c : PdrBinding) → Mem c (b ∷ bs)
    → comes_before c b ≡ false
first_is_best b bs n c i = NoneBefore-mem b (b ∷ bs) (comes_before_self b, n) c i

-- One that does not fit can be put in front.
IsChoice-cons :
    (b : PdrBinding) (bs : List PdrBinding) (m : Option PacketMeta) (o : Option PdrBinding)
    → match_sdf b.pdr m downlink ≡ false
    → IsChoice bs m o
    → IsChoice (b ∷ bs) m o
IsChoice-cons b bs m none e k = λ c i.
    Or.elim (hlevel) (eq-or-mem_of_mem-cons i)
      (λ q. subst (λ y. match_sdf y.pdr m downlink ≡ false) (sym q) e) (λ j. k c j)
IsChoice-cons b bs m (some r) e (i, f, k) = (
  mem-cons_of_mem b i,
  f,
  λ c j fc.
      Or.elim (hlevel) (eq-or-mem_of_mem-cons j)
        (λ q. absurd (refuted (sym (subst (λ y. match_sdf y.pdr m downlink ≡ true) q fc) ∙ e)))
        (λ l. k c l fc),
)
  where
    refuted : true ≢ false
    refuted h = cc

first_match_lem :
    (l : List PdrBinding) (m : Option PacketMeta) → IsSorted l → IsChoice l m (first_match l m)
unfolding first_match
first_match_lem [] m s = λ c i. absurd (not-mem-nil i)
first_match_lem (b ∷ bs) m (n, s) = elim (Bool-cases (match_sdf b.pdr m downlink)) [
  | inl e ↦ rw e (mem-cons_self, e, λ c i f. first_is_best b bs n c i)
  | inr e ↦ rw e (IsChoice-cons b bs m (first_match bs m) e (first_match_lem bs m s))
]

-- The same elements: the choice among the one list is a choice among the other.
IsChoice-perm :
    (l r : List PdrBinding) (m : Option PacketMeta) (o : Option PdrBinding)
    → Perm l r
    → IsChoice l m o
    → IsChoice r m o
IsChoice-perm l r m none p k = λ c i. k c ((Perm.mem_iff p).1 i)
IsChoice-perm l r m (some b) p (i, f, k) =
    ((Perm.mem_iff p).0 i, f, λ c j fc. k c ((Perm.mem_iff p).1 j) fc)

IsAnswer-choice :
    (l : List PdrBinding) (m : Option PacketMeta) (o : Option PdrBinding)
    → IsChoice l m o
    → IsAnswer l m o
IsAnswer-choice l m none k = All-of _ l k
IsAnswer-choice l m (some b) (i, f, k) = (i, f, All-of _ l (λ c j. elsewhere c (k c j)))
  where
    elsewhere :
        (c : PdrBinding)
        → (FitsBinding m c → comes_before c b ≡ false)
        → (match_sdf c.pdr m downlink && outranks c b) ≡ false
    elsewhere c h = elim (Bool-cases (match_sdf c.pdr m downlink)) [
      | inl e ↦ rw e (sym (comes_before-outranks c b) ∙ h e)
      | inr e ↦ rw e refl
    ]

module _ {F : Type 0} (ss : Assoc ℕ (SessionState F)) where
  -- Against the snapshot of the sessions, `matchDownlink` of an address that is not empty answers the
  -- binding of one of the sessions' PDRs with that downlink address whose SDF filters the packet
  -- matches, such that no other one that the packet matches has a greater precedence value, or an
  -- equal one and a smaller identifier; and it answers none only if the packet matches none of them.
  pub match_downlink-best :
      (ue : Bytes) (m : Option PacketMeta)
      → 0 < length ue
      → IsAnswer
          (keyed_bindings downlink_key ue ss)
          m
          (match_downlink (build_runtime_snapshot ss) ue m)
  unfolding match_downlink
  match_downlink-best ue m h =
      let listed = keyed_bindings downlink_key ue ss in
      let sorted = sort_bindings listed in
      IsAnswer-choice listed m (match_downlink (build_runtime_snapshot ss) ue m) (
        subst
          (λ b. IsChoice listed m (
            if b
            then none
            else first_match (bindings_at ue (build_runtime_snapshot ss).downlink) m))
          (sym (nonempty h))
          (subst (λ l. IsChoice listed m (first_match l m))
            (sym (build_runtime_snapshot_lem ss 0 ue).1)
            (IsChoice-perm sorted listed m (first_match sorted m) (sort_bindings-perm listed)
              (first_match_lem sorted m (sort_bindings-IsSorted listed)))))
    where
      nonempty : 0 < length ue → (length ue == 0) ≡ false
      nonempty h = ground arith
