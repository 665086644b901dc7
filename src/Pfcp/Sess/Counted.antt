-- ===== src/Pfcp/Sess/Counted.antt =====
-- internal/pfcp/node.go: the count `refPdrNum` under CreatePDR and RemovePDR.
use go_upf.Base.{
  member, Distinct, ℕ, ◌-◌, ◌≤◌, ◌<◌, ◌≡◌, refl, sym, ◌∙◌, true, false, Option, none, some, List,
  [], ◌∷◌, arith, length, Assoc, lookup, insert, delete, lookup-insert, lookup-delete, ltb, ◌==◌,
  ==_iff, if◌then◌else◌, Bool-cases, Option-cases, inl, inr, nat_eq, subst,
}
use go_upf.Report.{UsaReport}
use go_upf.Forwarder.{Ie, Driver, PdrChild}
use go_upf.Pfcp.Sess.{
  Sess, UrrInfo, IdSet, bump_all, keys, urr_ids_of, pdr_id_of, set_of, create_pdr, diassociate_urr,
  diassociate_all, final_report, remove_pdr, remove_relations, reply,
}
use go_upf.Pfcp.Sess.RefCount.{
  uses, one_if, ref_num, known, has-keys, uses-insert_fresh, uses-delete, known-bump_all,
  ref_num-bump_all, has-set_of, Distinct-keys-insert, Distinct-set_of, Distinct-keys-delete,
}

-- The PDRs and the URRs of each are listed once, and every known URR is counted right.
pub record IsCounted (s : Sess) : Type 0 where
  pub listed : Distinct (keys s.pdr_ids)
  pub related : (p : ℕ) (ids : IdSet) → lookup p s.pdr_ids ≡ some ids → Distinct (keys ids)
  pub counted : (u : ℕ) → known s.urr_ids u ≡ true → ref_num s.urr_ids u ≡ uses s.pdr_ids u

uses-le_length : (m : Assoc ℕ IdSet) (u : ℕ) → uses m u ≤ length m
uses-le_length [] u = omega arith
uses-le_length ((p, ids) ∷ m) u = ground (arith, uses-le_length m u)

reply-sess : {S A : Type 0} (s : Sess) (r : Option A × S) → (reply s r).1 ≡ s
reply-sess s (none, st) = refl
reply-sess s (some a, st) = refl

pub related-insert :
    (m : Assoc ℕ IdSet) (p q : ℕ) (new ids : IdSet)
    → ((p' : ℕ) (ids' : IdSet) → lookup p' m ≡ some ids' → Distinct (keys ids'))
    → Distinct (keys new)
    → lookup q (insert p new m) ≡ some ids
    → Distinct (keys ids)
related-insert m p q new ids h d e = elim (Bool-cases (p == q)) [
  | inl k ↦ subst (λ x. Distinct (keys x)) (ground (arith, k, lookup-insert p q new m, e)) d
  | inr k ↦ h q ids (ground (arith, k, lookup-insert p q new m, e))
]

related-delete :
    (m : Assoc ℕ IdSet) (p q : ℕ) (ids : IdSet)
    → ((p' : ℕ) (ids' : IdSet) → lookup p' m ≡ some ids' → Distinct (keys ids'))
    → lookup q (delete p m) ≡ some ids
    → Distinct (keys ids)
related-delete m p q ids h e = h q ids (ground (arith, lookup-delete p q m, e))

-- A new PDR with its URRs, in the two maps.
enter-IsCounted :
    (s : Sess) (p : ℕ) (vs : List ℕ)
    → IsCounted s
    → lookup p s.pdr_ids ≡ none
    → Distinct vs
    → length s.pdr_ids < 65535
    → IsCounted
        (record s { urr_ids = bump_all s.urr_ids vs; pdr_ids = insert p (set_of [] vs) s.pdr_ids })
enter-IsCounted s p vs c new d room = record {
  listed = Distinct-keys-insert s.pdr_ids p (set_of [] vs) c.listed;
  related = λ q ids e.
      related-insert s.pdr_ids p q (set_of [] vs) ids c.related (Distinct-set_of [] vs tt) e;
  counted = λ u k.
      let old = known-bump_all s.urr_ids vs u in
      let k' : known s.urr_ids u ≡ true = sym old ∙ k in
      let n = c.counted u k' in
      ground (
        arith,
        ref_num-bump_all s.urr_ids vs u d,
        n,
        k',
        uses-le_length s.pdr_ids u,
        uses-insert_fresh s.pdr_ids p u (set_of [] vs) new,
        has-set_of [] vs u,
        room,
      );
}

module _ {S : Type 0} (d : Driver S) where
  -- CreatePDR under an identifier that is not in use, with each URR named once, keeps the counts
  -- right, whether the driver accepts the PDR or refuses it.
  pub create_pdr-IsCounted :
      (s : Sess) (st : S) (ie : Ie) (cs : List PdrChild)
      → IsCounted s
      → ie.pdr_children ≡ some cs
      → lookup (pdr_id_of 0 cs) s.pdr_ids ≡ none
      → Distinct (urr_ids_of cs)
      → length s.pdr_ids < 65535
      → IsCounted (create_pdr d s st ie).1
  unfolding create_pdr
  create_pdr-IsCounted s st ie cs c e new once room =
      rw (e, create_pdr)
        (subst IsCounted (sym (reply-sess _ _))
          (enter-IsCounted s (pdr_id_of 0 cs) (urr_ids_of cs) c new once room))

  final_report-sess : (s : Sess) (r : Option (List UsaReport) × S) → (final_report d s r).1 ≡ s
  final_report-sess s (none, st) = refl
  final_report-sess s (some us, st) = refl

  -- One URR less in use by one PDR.
  abbrev Released : Sess → Sess → ℕ → Type 0
  Released s s' v =
      (s'.pdr_ids ≡ s.pdr_ids)
      × ((u : ℕ) → known s'.urr_ids u ≡ known s.urr_ids u)
      × ((u : ℕ) → ref_num s'.urr_ids u ≡ ref_num s.urr_ids u - one_if (u == v))

  abbrev less_one : Sess → ℕ → UrrInfo → Sess
  less_one s v info = record s {
    urr_ids = insert v (record info { ref_pdr_num = info.ref_pdr_num - 1 }) s.urr_ids;
  }

  diassociate_urr-sess :
      (s : Sess) (st : S) (v : ℕ) (info : UrrInfo)
      → lookup v s.urr_ids ≡ some info
      → (diassociate_urr d s st v).1 ≡ (if ltb 0 info.ref_pdr_num then less_one s v info else s)
  unfolding diassociate_urr
  diassociate_urr-sess s st v info e =
      rw (e, diassociate_urr)
        (elim (Bool-cases (ltb 0 info.ref_pdr_num)) [
          | inl pos ↦ rw pos (elim (Bool-cases (info.ref_pdr_num - 1 == 0)) [
            | inl z ↦ rw z (final_report-sess (less_one s v info) _)
            | inr z ↦ rw z refl
          ])
          | inr done ↦ rw done refl
        ])

  less_one-Released :
      (s : Sess) (v : ℕ) (info : UrrInfo)
      → lookup v s.urr_ids ≡ some info
      → Released s (if ltb 0 info.ref_pdr_num then less_one s v info else s) v
  less_one-Released s v info e =
      let law = λ (u : ℕ).
        lookup-insert v u (record info { ref_pdr_num = info.ref_pdr_num - 1 }) s.urr_ids in
      (
        ground arith,
        λ u. ground (arith, law u, e, ==_iff v u),
        λ u. ground (arith, law u, e, ==_iff v u, ==_iff u v),
      )

  diassociate_urr-Released : (s : Sess) (st : S) (v : ℕ) → Released s (diassociate_urr d s st v).1 v
  unfolding diassociate_urr
  diassociate_urr-Released s st v = elim (Option-cases (lookup v s.urr_ids)) [
    | inl e ↦ rw (e, diassociate_urr) (refl, λ u. refl, λ u. ground (arith, e, ==_iff u v))
    | inr (info, e) ↦
        subst (λ s'. Released s s' v) (sym (diassociate_urr-sess s st v info e))
          (less_one-Released s v info e)
  ]

  -- Each URR of the list less in use by one PDR.
  abbrev pub ReleasedAll : Sess → Sess → List ℕ → Type 0
  ReleasedAll s s' vs =
      (s'.pdr_ids ≡ s.pdr_ids)
      × ((u : ℕ) → known s'.urr_ids u ≡ known s.urr_ids u)
      × ((u : ℕ) → ref_num s'.urr_ids u ≡ ref_num s.urr_ids u - one_if (member u vs))

  pub diassociate_all-ReleasedAll :
      (s : Sess) (st : S) (vs : List ℕ)
      → Distinct vs
      → ReleasedAll s (diassociate_all d s st vs).1 vs
  unfolding diassociate_all
  diassociate_all-ReleasedAll s st [] once = (refl, λ u. refl, λ u. omega arith)
  diassociate_all-ReleasedAll s st (v ∷ vs) (out, once) =
      let (us, s', st') = diassociate_urr d s st v in
      let (p, k, r) = diassociate_urr-Released s st v in
      let (ps, ks, rs) = diassociate_all-ReleasedAll s' st' vs once in
      (
        ps ∙ p,
        λ u. ks u ∙ k u,
        λ u. elim (Bool-cases (u == v)) [
          | inl e ↦
              let gone : member u vs ≡ false =
                subst (λ x. member x vs ≡ false) (sym ((==_iff u v).0 e)) out in
              ground (arith, e, gone, rs u, r u)
          | inr e ↦ ground (arith, e, rs u, r u)
        ],
      )

  -- The session after its PDR is gone.
  leave-IsCounted :
      (s s' : Sess) (p : ℕ) (ids : IdSet)
      → IsCounted s
      → lookup p s.pdr_ids ≡ some ids
      → ReleasedAll s s' (keys ids)
      → IsCounted (record s' { pdr_ids = delete p s'.pdr_ids })
  leave-IsCounted s s' p ids c e (same, k, r) = record {
    listed = rw same (Distinct-keys-delete s.pdr_ids p c.listed);
    related = λ q vs h. related-delete s.pdr_ids p q vs c.related (rw same at h);
    counted = λ u h.
        let n = c.counted u (sym (k u) ∙ h) in
        rw same (ground (arith, r u, n, uses-delete s.pdr_ids p u ids c.listed e, has-keys ids u));
  }

  -- RemovePDR keeps the counts right on every branch: an element that does not decode, a PDR that
  -- is not there, a driver that refuses, and a removal.
  pub remove_pdr-IsCounted :
      (s : Sess) (st : S) (ie : Ie) → IsCounted s → IsCounted (remove_pdr d s st ie).1
  unfolding remove_pdr
  remove_pdr-IsCounted s st ie c = elim (Option-cases ie.pdr_id) [
    | inl e ↦ rw (e, remove_pdr) c
    | inr (p, e) ↦ elim (Option-cases (lookup p s.pdr_ids)) [
      | inl m ↦ rw (e, remove_pdr) (rw m c)
      | inr (ids, m) ↦ rw (e, remove_pdr) (rw m (answered p ids m (d.remove_pdr st s.local_id ie)))
    ]
  ]
    where
      answered :
          (p : ℕ) (ids : IdSet)
          → lookup p s.pdr_ids ≡ some ids
          → (r : Option (Unit {0}) × S) → IsCounted (remove_relations d p ids s r).1
      answered p ids m (none, st') = c
      answered p ids m (some t, st') =
          leave-IsCounted s _ p ids c m
            (diassociate_all-ReleasedAll s st' (keys ids) (c.related p ids m))
