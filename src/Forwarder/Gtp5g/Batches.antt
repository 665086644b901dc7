-- ===== src/Forwarder/Gtp5g/Batches.antt =====
-- internal/forwarder/gtp5g.go: `queryMultiURR` in as many requests as it needs, against one question
-- for each.
use mathlib.Core.List.{append_assoc, append-nil}
use go_upf.Base.{
  ℕ, ◌≡◌, refl, sym, subst, ap, ◌∙◌, Bool, true, false, Option, none, some, List, [], ◌∷◌, ◌++◌,
  length, Assoc, lookup, lookup-insert, length-append, ◌<◌, ◌≤◌, leb, ltb, nat_eq, arith, ◌==◌,
  if◌then◌else◌, Bool-cases, inl, inr,
}
use go_upf.Report.{UsaReport}
use go_upf.Forwarder.Gtp5g.Kernel.{Oid, NlReport, Gtp5gnl, queried_report}
use go_upf.Forwarder.Gtp5g.Query.{
  usars_at, append_usar, grouped, all_oids, Batch, ask, ask_if_full, or_fail, query_loop, ask_rest,
  multi_reports, query_multi_urr,
}

-- The reports of one session, in their order.
abbrev pub session_usars : ℕ → List NlReport → List UsaReport
session_usars seid [] = []
session_usars seid (r ∷ rs) =
    let rest = session_usars seid rs in if r.seid == seid then queried_report r ∷ rest else rest

usars_at-if :
    (b : Bool) (us : List UsaReport) (o : Option (List UsaReport))
    → usars_at (if b then some us else o) ≡ (if b then us else usars_at o)
usars_at-if true us o = refl
usars_at-if false us o = refl

same_key :
    (j k : ℕ) (m : Assoc ℕ (List UsaReport))
    → (j == k) ≡ true
    → usars_at (lookup j m) ≡ usars_at (lookup k m)
same_key j k m e = let e' : j ≡ k = ground (arith, e) in rw e' refl

usars_at-grouped :
    (rs : List NlReport) (m : Assoc ℕ (List UsaReport)) (seid : ℕ)
    → usars_at (lookup seid (grouped m rs)) ≡ usars_at (lookup seid m) ++ session_usars seid rs
unfolding grouped
usars_at-grouped [] m seid = sym (append-nil _)
usars_at-grouped (r ∷ rs) m seid =
    usars_at-grouped rs (append_usar m r) seid
    ∙ rw (lookup-insert r.seid seid (usars_at (lookup r.seid m) ++ queried_report r ∷ []) m)
        (elim (Bool-cases (r.seid == seid)) [
          | inl e ↦
              rw (e, same_key r.seid seid m e)
                (append_assoc (usars_at (lookup seid m)) (queried_report r ∷ [])
                  (session_usars seid rs))
          | inr e ↦ rw e refl
        ])

module _ {K : Type 0} (answer : Oid → K → List NlReport × K) where
  -- What the kernel reports of URRs, of one after the other; a report may reset what is measured.
  abbrev pub answers : List Oid → K → List NlReport × K
  answers [] k = ([], k)
  answers (o ∷ os) k =
      let (rs, k1) = answer o k in let (rest, k2) = answers os k1 in (rs ++ rest, k2)

  answers-append_reports :
      (os ps : List Oid) (k : K)
      → (answers (os ++ ps) k).0 ≡ (answers os k).0 ++ (answers ps (answers os k).1).0
  answers-append_reports [] ps k = refl
  answers-append_reports (o ∷ os) ps k =
      ap (λ rs. (answer o k).0 ++ rs) (answers-append_reports os ps (answer o k).1)
      ∙ sym (append_assoc (answer o k).0 _ _)

  answers-append_kernel :
      (os ps : List Oid) (k : K) → (answers (os ++ ps) k).1 ≡ (answers ps (answers os k).1).1
  answers-append_kernel [] ps k = refl
  answers-append_kernel (o ∷ os) ps k = answers-append_kernel os ps (answer o k).1

module _ {K : Type 0} (nl : Gtp5gnl K) (answer : Oid → K → List NlReport × K) where
  -- A request for one URR or more, up to as many as fit, is answered. Of a larger one nothing is
  -- known.
  abbrev pub AnswersFitting : Type 0
  AnswersFitting =
      (os : List Oid) (k : K)
      → 0 < length os
      → length os ≤ nl.max_netlink_usage_report_num
      → nl.get_multi_reports_oid os k ≡ (some (answers answer os k).0, (answers answer os k).1)

  -- What is gathered, with what `os` would still bring, comes to `total`, and the kernel to `final`.
  abbrev ComesTo : List NlReport → K → List NlReport → List Oid → K → Type 0
  ComesTo total final reports os k =
      (reports ++ (answers answer os k).0 ≡ total) × ((answers answer os k).1 ≡ final)

  ComesTo-asked :
      (total : List NlReport) (final : K) (reports : List NlReport) (os rest : List Oid) (k : K)
      → ComesTo total final reports (os ++ rest) k
      → ComesTo total final (reports ++ (answers answer os k).0) rest (answers answer os k).1
  ComesTo-asked total final reports os rest k (e, f) = (
    append_assoc reports (answers answer os k).0 _
        ∙ (ap (λ rs. reports ++ rs) (sym (answers-append_reports answer os rest k)) ∙ e),
    sym (answers-append_kernel answer os rest k) ∙ f,
  )

  -- The batch has room for one more, and with the rest it comes to the same.
  abbrev Complete : List NlReport → K → List Oid → Option Batch × K → Type 0
  Complete total final rest (none, k) = ⊥
  Complete total final rest (some b, k) =
      ComesTo total final b.reports (b.oids ++ rest) k
      × (length b.oids < nl.max_netlink_usage_report_num)

  module _ (fitting : AnswersFitting) (positive : 0 < nl.max_netlink_usage_report_num)
      (total : List NlReport) (final : K) where
    ask-Complete :
        (rest : List Oid) (b : Batch) (k : K)
        → 0 < length b.oids
        → length b.oids ≤ nl.max_netlink_usage_report_num
        → ComesTo total final b.reports (b.oids ++ rest) k
        → Complete total final rest (ask nl b k)
    ask-Complete rest b k h l c =
        rw (fitting b.oids k h l) (ComesTo-asked total final b.reports b.oids rest k c, positive)

    ask_if_full-Complete :
        (rest : List Oid) (b : Batch) (k : K)
        → 0 < length b.oids
        → length b.oids ≤ nl.max_netlink_usage_report_num
        → ComesTo total final b.reports (b.oids ++ rest) k
        → Complete total final rest (ask_if_full nl b k)
    ask_if_full-Complete rest b k h l c =
        elim (Bool-cases (leb nl.max_netlink_usage_report_num (length b.oids))) [
          | inl e ↦ rw e (ask-Complete rest b k h l c)
          | inr e ↦ rw e (c, ground (arith, e))
        ]

    query_loop-Complete :
        (os : List Oid) (x : Option Batch × K)
        → Complete total final os x
        → Complete total final [] (or_fail nl (query_loop nl os) x)
    unfolding query_loop
    query_loop-Complete os (none, k) c = absurd c
    query_loop-Complete [] (some b, k) c = c
    query_loop-Complete (o ∷ os) (some b, k) (c, l) =
        query_loop-Complete os (ask_if_full nl (record b { oids = b.oids ++ o ∷ [] }) k) (
          ask_if_full-Complete os (record b { oids = b.oids ++ o ∷ [] }) k
            (omega (arith, length-append b.oids (o ∷ [])))
            (omega (arith, length-append b.oids (o ∷ []))) (rw (append_assoc b.oids (o ∷ []) os) c))

    abbrev Gathered : Option Batch × K → Type 0
    Gathered (none, k) = ⊥
    Gathered (some b, k) = (b.reports ≡ total) × (k ≡ final)

    ask_rest-of :
        (reports : List NlReport) (os : List Oid) (k : K)
        → Complete total final [] (some (record { oids = os; reports = reports }), k)
        → Gathered (ask_rest nl (record { oids = os; reports = reports }) k)
    ask_rest-of reports [] k ((e, f), l) = (sym (append-nil reports) ∙ e, f)
    ask_rest-of reports (o ∷ os) k (c, l) =
        let some_left : ltb 0 (length (o ∷ os)) ≡ true = ground arith in
        rw (some_left, fitting (o ∷ os) k (omega arith) (omega arith))
          (subst (λ ps. ComesTo total final reports ps k) (append-nil (o ∷ os)) c)

    ask_rest-Gathered :
        (x : Option Batch × K) → Complete total final [] x → Gathered (or_fail nl (ask_rest nl) x)
    ask_rest-Gathered (none, k) c = absurd c
    ask_rest-Gathered (some b, k) c = ask_rest-of b.reports b.oids k c

    multi_reports-Gathered :
        (x : Option Batch × K) → Gathered x → multi_reports nl x ≡ (some (grouped [] total), final)
    multi_reports-Gathered (none, k) h = absurd h
    multi_reports-Gathered (some b, k) (e, f) = rw (e, f) refl

-- Where the kernel answers each request that names a URR or more, but no more than fit one message,
-- with the reports of one after the other, and at least one fits: the query of any number of URRs
-- succeeds. For each session it returns the reports that the kernel has of its URRs, in their order,
-- and it leaves the kernel as asking for one URR after the other does.
pub query_multi_urr-answers :
    {K : Type 0} (nl : Gtp5gnl K) (answer : Oid → K → List NlReport × K) (m : Assoc ℕ (List ℕ))
    (k : K)
    → AnswersFitting nl answer
    → 0 < nl.max_netlink_usage_report_num
    → (us : Assoc ℕ (List UsaReport)) × (query_multi_urr nl m k
        ≡ (some us, (answers answer (all_oids m) k).1))
      × ((seid : ℕ)
          → usars_at (lookup seid us) ≡ session_usars seid (answers answer (all_oids m) k).0)
unfolding query_multi_urr
query_multi_urr-answers nl answer m k fitting positive =
    let (total, final) = answers answer (all_oids m) k in
    let start : Batch = record { oids = []; reports = [] } in
    (
      grouped [] total,
      multi_reports-Gathered nl answer fitting positive total final _ (
          ask_rest-Gathered nl answer fitting positive total final _ (
            query_loop-Complete nl answer fitting positive total final (all_oids m) (some start, k)
              ((refl, refl), positive))),
      usars_at-grouped total [],
    )
