-- ===== src/Pfcp/Sess/Update.antt =====
-- internal/pfcp/node.go: the count `refPdrNum` under UpdatePDR.
use go_upf.Base.{
  member, Distinct, ℕ, ◌+◌, ◌-◌, ◌≡◌, refl, sym, ap, ◌∙◌, true, false, some, List, [], ◌∷◌, arith,
  Assoc, lookup, insert, ◌==◌, ==_iff, if◌then◌else◌, Bool-cases, inl, inr, nat_eq, subst,
}
use go_upf.Forwarder.{Ie, Driver, PdrChild}
use go_upf.Pfcp.Sess.{
  Sess, IdSet, has, keys, urr_ids_of, pdr_id_of, set_of, update_pdr, dropped, diassociate_all,
}
use go_upf.Pfcp.Sess.RefCount.{
  uses, one_if, ref_num, known, has-keys, Distinct-keys-insert, Distinct-set_of,
}
use go_upf.Pfcp.Sess.Counted.{IsCounted, diassociate_all-ReleasedAll, related-insert}

-- The PDR has the new set in place of the old one.
uses-insert :
    (m : Assoc ℕ IdSet) (p u : ℕ) (old new : IdSet)
    → lookup p m ≡ some old
    → uses (insert p new m) u + one_if (has old u) ≡ uses m u + one_if (has new u)
uses-insert [] p u old new h = cc
uses-insert ((q, vs) ∷ m) p u old new h = elim (Bool-cases (q == p)) [
  | inl e ↦ rw e (ground (arith, e, h))
  | inr e ↦ rw e (ground (arith, e, uses-insert m p u old new, h))
]

-- Of the old URRs, those that the new set lacks are given up.
member-dropped :
    (vs : List ℕ) (new : IdSet) (u : ℕ)
    → member u (dropped vs new) ≡ (if has new u then false else member u vs)
member-dropped [] new u = ground arith
member-dropped (v ∷ vs) new u = elim (Bool-cases (u == v)) [
  | inl e ↦ ground (arith, e, member-dropped vs new u, ap (has new) ((==_iff u v).0 e))
  | inr e ↦ ground (arith, e, member-dropped vs new u)
]

Distinct-dropped : (vs : List ℕ) (new : IdSet) → Distinct vs → Distinct (dropped vs new)
Distinct-dropped [] new once = tt
Distinct-dropped (v ∷ vs) new (out, once) = elim (Bool-cases (has new v)) [
  | inl e ↦ rw e (Distinct-dropped vs new once)
  | inr e ↦ rw e (ground (arith, member-dropped vs new v, out), Distinct-dropped vs new once)
]

module _ {S : Type 0} (d : Driver S) where
  -- The state that an accepted update leaves.
  updated : Sess → S → ℕ → IdSet → IdSet → Sess
  updated s st p old new =
      let s' = (diassociate_all d s st (dropped (keys old) new)).1 in
      record s' { pdr_ids = insert p new s'.pdr_ids }

  ref_num-updated :
      (s : Sess) (st : S) (p u : ℕ) (old new : IdSet)
      → Distinct (keys old)
      → (known (updated s st p old new).urr_ids u ≡ known s.urr_ids u)
        × (ref_num (updated s st p old new).urr_ids u
            ≡ ref_num s.urr_ids u - one_if (if has new u then false else has old u))
        × ((updated s st p old new).pdr_ids ≡ insert p new s.pdr_ids)
  unfolding updated
  ref_num-updated s st p u old new once =
      let (same, k, r) =
        diassociate_all-ReleasedAll d s st (dropped (keys old) new) (Distinct-dropped _ new once) in
      (
        k u,
        ground (arith, r u, member-dropped (keys old) new u, has-keys old u),
        ap (insert p new) same,
      )

  update_pdr-updated :
      (s : Sess) (st : S) (ie : Ie) (cs : List PdrChild) (old : IdSet) (st' : S)
      → ie.pdr_children ≡ some cs
      → lookup (pdr_id_of 0 cs) s.pdr_ids ≡ some old
      → d.update_pdr st s.local_id ie ≡ (some tt, st')
      → (update_pdr d s st ie).1 ≡ updated s st' (pdr_id_of 0 cs) old (set_of [] (urr_ids_of cs))
  unfolding update_pdr updated
  update_pdr-updated s st ie cs old st' e m a = rw (e, update_pdr) (rw m (rw a refl))

  -- UpdatePDR keeps the counts right if the driver accepts it and no known URR is new to the PDR.
  pub update_pdr-IsCounted :
      (s : Sess) (st : S) (ie : Ie) (cs : List PdrChild) (old : IdSet) (st' : S)
      → IsCounted s
      → ie.pdr_children ≡ some cs
      → lookup (pdr_id_of 0 cs) s.pdr_ids ≡ some old
      → d.update_pdr st s.local_id ie ≡ (some tt, st')
      → ((u : ℕ)
          → known s.urr_ids u ≡ true
          → has (set_of [] (urr_ids_of cs)) u ≡ true
          → has old u ≡ true)
      → IsCounted (update_pdr d s st ie).1
  update_pdr-IsCounted s st ie cs old st' c e m a kept =
      subst IsCounted (sym (update_pdr-updated s st ie cs old st' e m a)) after
    where
      p : ℕ
      p = pdr_id_of 0 cs

      new : IdSet
      new = set_of [] (urr_ids_of cs)

      once : Distinct (keys old)
      once = c.related p old m

      same : (updated s st' p old new).pdr_ids ≡ insert p new s.pdr_ids
      same = (ref_num-updated s st' p 0 old new once).2

      after : IsCounted (updated s st' p old new)
      after = record {
        listed = rw same (Distinct-keys-insert s.pdr_ids p new c.listed);
        related = λ q ids h.
            related-insert s.pdr_ids p q new ids c.related (Distinct-set_of [] (urr_ids_of cs) tt)
              (rw same at h);
        counted = λ u h.
            let (k, r, _) = ref_num-updated s st' p u old new once in
            let k' : known s.urr_ids u ≡ true = sym k ∙ h in
            rw same
              (ground (arith, r, c.counted u k', uses-insert s.pdr_ids p u old new m, kept u k'));
      }

  -- A known URR that UpdatePDR gives to a PDR which did not use it is not counted: the driver
  -- accepts, its count stays one below the number of PDRs that use it, and the counts are no longer
  -- right.
  pub update_pdr-miscounts :
      (s : Sess) (st : S) (ie : Ie) (cs : List PdrChild) (old : IdSet) (st' : S) (u : ℕ)
      → IsCounted s
      → ie.pdr_children ≡ some cs
      → lookup (pdr_id_of 0 cs) s.pdr_ids ≡ some old
      → d.update_pdr st s.local_id ie ≡ (some tt, st')
      → known s.urr_ids u ≡ true
      → has (set_of [] (urr_ids_of cs)) u ≡ true
      → has old u ≡ false
      → let s' = (update_pdr d s st ie).1 in
        (ref_num s'.urr_ids u + 1 ≡ uses s'.pdr_ids u) × ¬ IsCounted s'
  update_pdr-miscounts s st ie cs old st' u c e m a k h n =
      subst (λ x. (ref_num x.urr_ids u + 1 ≡ uses x.pdr_ids u) × ¬ IsCounted x)
        (sym (update_pdr-updated s st ie cs old st' e m a)) (short, wrong)
    where
      p : ℕ
      p = pdr_id_of 0 cs

      new : IdSet
      new = set_of [] (urr_ids_of cs)

      x : Sess
      x = updated s st' p old new

      facts :
          (known x.urr_ids u ≡ known s.urr_ids u)
          × (ref_num x.urr_ids u
              ≡ ref_num s.urr_ids u - one_if (if has new u then false else has old u))
          × (x.pdr_ids ≡ insert p new s.pdr_ids)
      facts = ref_num-updated s st' p u old new (c.related p old m)

      short : ref_num x.urr_ids u + 1 ≡ uses x.pdr_ids u
      short =
          rw facts.2
            (ground (arith, facts.1, c.counted u k, uses-insert s.pdr_ids p u old new m, h, n))

      wrong : ¬ IsCounted x
      wrong i = absurd (omega (arith, short, i.counted u (facts.0 ∙ k)))
