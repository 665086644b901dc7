-- ===== src/Userspace/Binding/Index.antt =====
-- internal/forwarder/userspace/runtime.go: what the two maps of a snapshot hold under a key.
use go_upf.Base.{
  ℕ, Bool, false, Option, none, some, List, [], ◌∷◌, ◌++◌, ◌≡◌, refl, sym, ap, ◌∙◌, Assoc, insert,
  lookup-insert, if◌then◌else◌, Eq, nat_eq, bytes_eq, Bytes, Bool-cases, inl, inr,
}
use mathlib.Core.List.{append_assoc, append-nil}
use go_upf.Userspace.Rule.{PdrRule, SessionState}
use go_upf.Userspace.Binding.{
  PdrBinding, bind_pdr, uplink_key, downlink_key, bindings_at, append_at, index_pdrs,
  index_sessions, sort_bindings, sort_all, build_runtime_snapshot,
}

module _ {K : Type 0} ⦃e : Eq K⦄ where
  abbrev has_key : K → Option K → Bool
  has_key k none = false
  has_key k (some j) = e.beq j k

  module _ {F : Type 0} (key : PdrRule → Option K) where
    -- The bindings of a session's PDRs that have the key, in the order of the PDRs.
    abbrev pub keyed_pdrs : K → ℕ → SessionState F → Assoc ℕ PdrRule → List PdrBinding
    keyed_pdrs k seid s [] = []
    keyed_pdrs k seid s ((id, p) ∷ ps) =
        let rest = keyed_pdrs k seid s ps in
        if has_key k (key p) then bind_pdr seid s p ∷ rest else rest

    -- Those of all sessions.
    abbrev pub keyed_bindings : K → Assoc ℕ (SessionState F) → List PdrBinding
    keyed_bindings k [] = []
    keyed_bindings k ((seid, s) ∷ ss) = keyed_pdrs k seid s s.pdrs ++ keyed_bindings k ss

  bindings_at-insert :
      (k j : K) (l : List PdrBinding) (m : Assoc K (List PdrBinding))
      → bindings_at j (insert k l m) ≡ (if e.beq k j then l else bindings_at j m)
  bindings_at-insert k j l m =
      rw (bindings_at, lookup-insert k j l m)
        elim (Bool-cases (e.beq k j)) [ inl t ↦ rw t refl | inr f ↦ rw f refl ]

  bindings_at-append_at :
      (o : Option K) (k : K) (b : PdrBinding) (m : Assoc K (List PdrBinding))
      → bindings_at k (append_at o b m) ≡ bindings_at k m ++ (if has_key k o then b ∷ [] else [])
  bindings_at-append_at none k b m = sym (append-nil (bindings_at k m))
  bindings_at-append_at (some j) k b m =
      bindings_at-insert j k (bindings_at j m ++ b ∷ []) m ∙ elim (Bool-cases (e.beq j k)) [
        | inl t ↦ rw (t, (e.beq_iff j k).0 t) refl
        | inr f ↦ rw f (sym (append-nil (bindings_at k m)))
      ]

  module _ {F : Type 0} (key : PdrRule → Option K) where
    index_pdrs_lem :
        (k : K) (seid : ℕ) (s : SessionState F) (ps : Assoc ℕ PdrRule)
        → (m : Assoc K (List PdrBinding))
        → bindings_at k (index_pdrs key seid s ps m) ≡ bindings_at k m ++ keyed_pdrs key k seid s ps
    unfolding index_pdrs
    index_pdrs_lem k seid s [] m = sym (append-nil (bindings_at k m))
    index_pdrs_lem k seid s ((id, p) ∷ ps) m =
        index_pdrs_lem k seid s ps (append_at (key p) (bind_pdr seid s p) m)
        ∙ ap (λ l. l ++ keyed_pdrs key k seid s ps)
            (bindings_at-append_at (key p) k (bind_pdr seid s p) m)
        ∙ elim (Bool-cases (has_key k (key p))) [
          | inl t ↦
              rw t (
                append_assoc (bindings_at k m) (bind_pdr seid s p ∷ [])
                  (keyed_pdrs key k seid s ps))
          | inr f ↦ rw (f, append-nil (bindings_at k m)) refl
        ]

    pub index_sessions_lem :
        (k : K) (ss : Assoc ℕ (SessionState F)) (m : Assoc K (List PdrBinding))
        → bindings_at k (index_sessions key ss m) ≡ bindings_at k m ++ keyed_bindings key k ss
    unfolding index_sessions
    index_sessions_lem k [] m = sym (append-nil (bindings_at k m))
    index_sessions_lem k ((seid, s) ∷ ss) m =
        index_sessions_lem k ss (index_pdrs key seid s s.pdrs m)
        ∙ ap (λ l. l ++ keyed_bindings key k ss) (index_pdrs_lem k seid s s.pdrs m)
        ∙ append_assoc (bindings_at k m) (keyed_pdrs key k seid s s.pdrs) (keyed_bindings key k ss)

  pub bindings_at-sort_all :
      (k : K) (m : Assoc K (List PdrBinding))
      → bindings_at k (sort_all m) ≡ sort_bindings (bindings_at k m)
  unfolding sort_bindings
  bindings_at-sort_all k [] = refl
  bindings_at-sort_all k ((j, l) ∷ m) = elim (Bool-cases (e.beq j k)) [
    | inl t ↦ rw t refl
    | inr f ↦ rw f (bindings_at-sort_all k m)
  ]

module _ {F : Type 0} (ss : Assoc ℕ (SessionState F)) where
  -- In the snapshot that is built of the sessions, the list under a TEID is the sorted list of the
  -- bindings of all PDRs, of all sessions, whose uplink key is that TEID, and the list under an
  -- address the sorted list of those whose downlink key is that address.
  pub build_runtime_snapshot_lem :
      (teid : ℕ) (ue : Bytes)
      → (bindings_at teid (build_runtime_snapshot ss).uplink
          ≡ sort_bindings (keyed_bindings uplink_key teid ss))
        × (bindings_at ue (build_runtime_snapshot ss).downlink
            ≡ sort_bindings (keyed_bindings downlink_key ue ss))
  unfolding build_runtime_snapshot
  build_runtime_snapshot_lem teid ue = (
    bindings_at-sort_all teid (index_sessions uplink_key ss [])
        ∙ ap sort_bindings (index_sessions_lem uplink_key teid ss []),
    bindings_at-sort_all ue (index_sessions downlink_key ss [])
        ∙ ap sort_bindings (index_sessions_lem downlink_key ue ss []),
  )
