-- ===== src/Pfcp/Serve/Numbered.antt =====
-- internal/pfcp/report.go: the numbers of the usage reports of one URR.
use go_upf.Base.{
  ℕ, zero, suc, ◌+◌, ◌%◌, ◌^◌, ◌<◌, ◌≡◌, refl, ap, ◌∙◌, Option, none, some, List, [], ◌∷◌, arith,
  lookup, lookup-insert, ◌==◌, ==_iff, if◌then◌else◌, Bool-cases, Option-cases, inl, inr, nat_eq,
  Assoc,
}
use go_upf.Report.{UsaReport, UsageIe, ie_urrid, ie_urseqn, usage_ies}
use go_upf.Pfcp.Sess.{Sess, UrrInfo}
use go_upf.Pfcp.Sess.Rules.{urr_seq}
use go_upf.Pfcp.Serve.{numbered_reports}

-- The number that the next report of a URR gets.
abbrev pub next_number : Assoc ℕ UrrInfo → ℕ → Option ℕ
next_number m u = elim (lookup u m) [ none ↦ none | some info ↦ some info.seqn ]

-- How many of the reports are of a URR.
abbrev pub count : ℕ → List UsaReport → ℕ
count u [] = 0
count u (r ∷ rs) = let rest = count u rs in if r.urrid == u then suc rest else rest

-- The numbers under which the reports of a URR are sent.
abbrev pub numbers : ℕ → List (List UsageIe) → List ℕ
numbers u [] = []
numbers u ((ie_urrid v ∷ ie_urseqn n ∷ ies) ∷ l) =
    let rest = numbers u l in if v == u then n ∷ rest else rest
numbers u (_ ∷ l) = numbers u l

-- The numbers from `n` on, in 32 bits.
abbrev pub consecutive : ℕ → ℕ → List ℕ
consecutive n zero = []
consecutive n (suc k) = n ∷ consecutive ((n + 1) % 2 ^ 32) k

next_number-urr_seq :
    (s : Sess) (id u : ℕ) (info : UrrInfo)
    → lookup id s.urr_ids ≡ some info
    → next_number (urr_seq s id).1.urr_ids u
      ≡ (if id == u then some ((info.seqn + 1) % 2 ^ 32) else next_number s.urr_ids u)
unfolding urr_seq
next_number-urr_seq s id u info e =
    rw (e, urr_seq)
      (ground
        (arith, lookup-insert id u (record info { seqn = (info.seqn + 1) % 2 ^ 32 }) s.urr_ids))

urr_seq-unknown : (s : Sess) (id : ℕ) → lookup id s.urr_ids ≡ none → urr_seq s id ≡ (0, s)
unfolding urr_seq
urr_seq-unknown s id e = rw (e, urr_seq) refl

urr_seq-number :
    (s : Sess) (id : ℕ) (info : UrrInfo)
    → lookup id s.urr_ids ≡ some info
    → (urr_seq s id).0 ≡ info.seqn
unfolding urr_seq
urr_seq-number s id info e = rw (e, urr_seq) refl

numbered_reports-unknown :
    (s : Sess) (r : UsaReport) (rs : List UsaReport)
    → lookup r.urrid s.urr_ids ≡ none
    → numbered_reports s (r ∷ rs) ≡ numbered_reports s rs
unfolding numbered_reports
numbered_reports-unknown s r rs e =
    rw (e, numbered_reports)
      (ap (λ (x : ℕ × Sess). numbered_reports x.1 rs) (urr_seq-unknown s r.urrid e))

numbered_reports-known :
    (s : Sess) (r : UsaReport) (rs : List UsaReport) (info : UrrInfo) (u : ℕ)
    → lookup r.urrid s.urr_ids ≡ some info
    → let (ies, s') = numbered_reports (urr_seq s r.urrid).1 rs in
      (numbers u (numbered_reports s (r ∷ rs)).0
        ≡ (if r.urrid == u then info.seqn ∷ numbers u ies else numbers u ies))
      × ((numbered_reports s (r ∷ rs)).1 ≡ s')
unfolding numbered_reports usage_ies
numbered_reports-known s r rs info u e =
    let n = urr_seq-number s r.urrid info e in rw (e, numbered_reports) (rw n (refl, refl))

-- The reports of a URR that go out in a request are numbered one after the other, from the next
-- number of the URR on, whatever reports of other URRs stand between them; and the next number
-- afterwards is the one that follows.
pub numbered_reports-consecutive :
    (rs : List UsaReport) (s : Sess) (u n : ℕ)
    → n < 2 ^ 32
    → next_number s.urr_ids u ≡ some n
    → let (ies, s') = numbered_reports s rs in
      (numbers u ies ≡ consecutive n (count u rs))
      × (next_number s'.urr_ids u ≡ some ((n + count u rs) % 2 ^ 32))
numbered_reports-consecutive [] s u n w h =
    unfold numbered_reports in (refl, h ∙ ap some (omega arith))
numbered_reports-consecutive (r ∷ rs) s u n w h = elim (Option-cases (lookup r.urrid s.urr_ids)) [
  | inl e ↦ elim (Bool-cases (r.urrid == u)) [
    | inl k ↦
        let bad : next_number s.urr_ids u ≡ none = ground (arith, e, ==_iff r.urrid u, k) in cc
    | inr k ↦
        rw (numbered_reports-unknown s r rs e) (rw k (numbered_reports-consecutive rs s u n w h))
  ]
  | inr (info, e) ↦
      let s1 = (urr_seq s r.urrid).1 in
      let next = next_number-urr_seq s r.urrid u info e in
      let (here, after) = numbered_reports-known s r rs info u e in
      elim (Bool-cases (r.urrid == u)) [
        | inl k ↦
            let same : info.seqn ≡ n = ground (arith, e, ==_iff r.urrid u, k, h) in
            let now : next_number s1.urr_ids u ≡ some ((n + 1) % 2 ^ 32) =
              next ∙ ground (arith, k, same) in
            let (ns, last) =
              numbered_reports-consecutive rs s1 u ((n + 1) % 2 ^ 32) (omega arith) now in
            rw (here, after)
              (rw k (
                ap (λ x. x ∷ numbers u (numbered_reports s1 rs).0) same ∙ ap (◌∷◌ n) ns,
                last ∙ ap some (omega arith),
              ))
        | inr k ↦
            let now : next_number s1.urr_ids u ≡ some n = next ∙ ground (arith, k, h) in
            rw (here, after) (rw k (numbered_reports-consecutive rs s1 u n w now))
      ]
]
