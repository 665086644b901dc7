-- ===== src/Forwarder/Gtp5g/Limit.antt =====
-- internal/forwarder/gtp5g.go: the size of the requests of `queryMultiURR`.
use go_upf.Base.{
  ℕ, ◌<◌, ◌≤◌, Option, none, some, List, [], ◌∷◌, ◌++◌, length, length-append, Assoc, leb, ltb,
  ltb→lt, arith, Bool-cases, inl, inr,
}
use go_upf.Forwarder.Gtp5g.Kernel.{Oid, NlReport, Gtp5gnl}
use go_upf.Forwarder.Gtp5g.Query.{
  all_oids, Batch, asked, ask, ask_if_full, or_fail, query_loop, ask_rest, multi_reports,
  query_multi_urr,
}

module _ {K : Type 0} (nl : Gtp5gnl K) (P : K → Type 0) where
  -- A request for one URR or more, up to the limit, keeps `P`.
  abbrev pub KeptWithin : Type 0
  KeptWithin =
      (os : List Oid) (k : K)
      → 0 < length os
      → length os ≤ nl.max_netlink_usage_report_num
      → P k
      → P (nl.get_multi_reports_oid os k).1

  -- The batch has room for one more.
  abbrev Room : Option Batch × K → Type 0
  Room (none, k) = P k
  Room (some b, k) = P k × (length b.oids < nl.max_netlink_usage_report_num)

  module _ (kept : KeptWithin) (positive : 0 < nl.max_netlink_usage_report_num) where
    asked-Room : (b : Batch) (x : Option (List NlReport) × K) → P x.1 → Room (asked nl b x)
    asked-Room b (none, k) h = h
    asked-Room b (some rs, k) h = (h, positive)

    ask-Room :
        (b : Batch) (k : K)
        → 0 < length b.oids
        → length b.oids ≤ nl.max_netlink_usage_report_num
        → P k
        → Room (ask nl b k)
    ask-Room b k h l p = asked-Room b _ (kept b.oids k h l p)

    ask_if_full-Room :
        (b : Batch) (k : K)
        → 0 < length b.oids
        → length b.oids ≤ nl.max_netlink_usage_report_num
        → P k
        → Room (ask_if_full nl b k)
    ask_if_full-Room b k h l p =
        elim (Bool-cases (leb nl.max_netlink_usage_report_num (length b.oids))) [
          | inl e ↦ rw e (ask-Room b k h l p)
          | inr e ↦ rw e (p, ground (arith, e))
        ]

    or_fail-Room :
        (next : Batch → K → Option Batch × K) (x : Option Batch × K)
        → ((b : Batch) (k : K)
            → P k
            → length b.oids < nl.max_netlink_usage_report_num
            → Room (next b k))
        → Room x
        → Room (or_fail nl next x)
    or_fail-Room next (none, k) f h = h
    or_fail-Room next (some b, k) f (p, l) = f b k p l

    query_loop-Room :
        (os : List Oid) (b : Batch) (k : K)
        → P k
        → length b.oids < nl.max_netlink_usage_report_num
        → Room (query_loop nl os b k)
    unfolding query_loop
    query_loop-Room [] b k p l = (p, l)
    query_loop-Room (o ∷ os) b k p l =
        or_fail-Room (query_loop nl os) (ask_if_full nl (record b { oids = b.oids ++ o ∷ [] }) k)
          (query_loop-Room os)
          (ask_if_full-Room (record b { oids = b.oids ++ o ∷ [] }) k
            (omega (arith, length-append b.oids (o ∷ [])))
            (omega (arith, length-append b.oids (o ∷ []))) p)

    ask_rest-Room :
        (b : Batch) (k : K)
        → P k
        → length b.oids < nl.max_netlink_usage_report_num
        → Room (ask_rest nl b k)
    ask_rest-Room b k p l = elim (Bool-cases (ltb 0 (length b.oids))) [
      | inl e ↦ rw e (ask-Room b k (ltb→lt 0 (length b.oids) e) (omega arith) p)
      | inr e ↦ rw e (p, l)
    ]

    kept-Room : (x : Option Batch × K) → Room x → P (multi_reports nl x).1
    kept-Room (none, k) h = h
    kept-Room (some b, k) (h, l) = h

    -- Where at least one report fits a request, every request of a query of many URRs names one URR
    -- or more and no more than fit: what such requests keep of the kernel, the query keeps.
    pub query_multi_urr-KeptWithin :
        (m : Assoc ℕ (List ℕ)) (k : K) → P k → P (query_multi_urr nl m k).1
    unfolding query_multi_urr
    query_multi_urr-KeptWithin m k p =
        let x = query_loop nl (all_oids m) (record { oids = []; reports = [] }) k in
        kept-Room (or_fail nl (ask_rest nl) x) (
          or_fail-Room (ask_rest nl) x ask_rest-Room
            (query_loop-Room (all_oids m) (record { oids = []; reports = [] }) k p positive))
