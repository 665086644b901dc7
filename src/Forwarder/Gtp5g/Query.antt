-- ===== src/Forwarder/Gtp5g/Query.antt =====
-- internal/forwarder/gtp5g.go: the queries of usage, for one URR and for many. The client that asks
-- (`client` or `psClient`) makes no difference to the kernel.
use go_upf.Base.{
  ℕ, Option, none, some, List, [], ◌∷◌, ◌++◌, length, Assoc, lookup, insert, leb, ltb, nat_eq,
  if◌then◌else◌,
}
use go_upf.Report.{UsaReport}
use go_upf.Forwarder.Gtp5g.Kernel.{Oid, NlReport, Gtp5gnl, queried_report, queried_reports}

-- `usars[r.SEID] = append(usars[r.SEID], usar)`.
abbrev pub usars_at : Option (List UsaReport) → List UsaReport
usars_at none = []
usars_at (some us) = us

abbrev pub append_usar : Assoc ℕ (List UsaReport) → NlReport → Assoc ℕ (List UsaReport)
append_usar m r = insert r.seid (usars_at (lookup r.seid m) ++ queried_report r ∷ []) m

unfoldable pub grouped : Assoc ℕ (List UsaReport) → List NlReport → Assoc ℕ (List UsaReport)
grouped m [] = m
grouped m (r ∷ rs) = grouped (append_usar m r) rs

abbrev pub oids_of : ℕ → List ℕ → List Oid
oids_of seid [] = []
oids_of seid (u ∷ us) = record { seid = seid; id = u } ∷ oids_of seid us

-- The two loops over the map visit these, one after the other.
abbrev pub all_oids : Assoc ℕ (List ℕ) → List Oid
all_oids [] = []
all_oids ((seid, us) ∷ m) = oids_of seid us ++ all_oids m

-- The variables `oids`, whose length is queryNum, and `reports`.
pub record Batch : Type 0 where
  pub oids : List Oid
  pub reports : List NlReport

module _ {K : Type 0} (nl : Gtp5gnl K) where
  abbrev pub queried : Option (List NlReport) × K → Option (List UsaReport) × K
  queried (none, k) = (none, k)
  queried (some rs, k) = (some (queried_reports rs), k)

  -- `queryURR`.
  unfoldable pub query_urr : ℕ → ℕ → K → Option (List UsaReport) × K
  query_urr seid urrid k = queried (nl.get_report_oid (record { seid = seid; id = urrid }) k)

  -- One request of `queryMultiURR`.
  abbrev pub asked : Batch → Option (List NlReport) × K → Option Batch × K
  asked b (none, k) = (none, k)
  asked b (some rs, k) = (some (record { oids = []; reports = b.reports ++ rs }), k)

  abbrev pub ask : Batch → K → Option Batch × K
  ask b k = asked b (nl.get_multi_reports_oid b.oids k)

  -- One more URR, and a request where the batch is full.
  abbrev pub ask_if_full : Batch → K → Option Batch × K
  ask_if_full b k =
      if leb nl.max_netlink_usage_report_num (length b.oids) then ask b k else (some b, k)

  abbrev pub or_fail : (Batch → K → Option Batch × K) → Option Batch × K → Option Batch × K
  or_fail next (none, k) = (none, k)
  or_fail next (some b, k) = next b k

  unfoldable pub query_loop : List Oid → Batch → K → Option Batch × K
  query_loop [] b k = (some b, k)
  query_loop (o ∷ os) b k =
      or_fail (query_loop os) (ask_if_full (record b { oids = b.oids ++ o ∷ [] }) k)

  -- The URRs that are left at the end.
  abbrev pub ask_rest : Batch → K → Option Batch × K
  ask_rest b k = if ltb 0 (length b.oids) then ask b k else (some b, k)

  abbrev pub multi_reports : Option Batch × K → Option (Assoc ℕ (List UsaReport)) × K
  multi_reports (none, k) = (none, k)
  multi_reports (some b, k) = (some (grouped [] b.reports), k)

  -- `queryMultiURR`.
  unfoldable pub query_multi_urr : Assoc ℕ (List ℕ) → K → Option (Assoc ℕ (List UsaReport)) × K
  unfolding query_loop grouped
  query_multi_urr m k =
      multi_reports
        (or_fail ask_rest (query_loop (all_oids m) (record { oids = []; reports = [] }) k))
