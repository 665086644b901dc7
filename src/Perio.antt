-- ===== src/Perio.antt =====
-- internal/forwarder/perio/server.go: the groups of URRs that report with one period, each with a
-- ticker of its own. A set of URRs is a list without repetitions, and a loop over a map visits the
-- entries in the order of the list.
pub mod Groups
pub mod Tidy
use go_upf.Base.{
  ℕ, ◌+◌, ◌-◌, Bool, true, false, Option, none, some, List, [], ◌∷◌, ◌++◌, length, member, Assoc,
  lookup, insert, delete, ◌==◌, if◌then◌else◌, nat_eq,
}
use go_upf.Report.{UsaReport, SessReport, Report, usa, set_bit, perio}

-- `PERIOGroup.urrids`: for each session, its URRs.
abbrev pub PerioGroup : Type 0
PerioGroup = Assoc ℕ (List ℕ)

-- `Server`, with the number of the tickers that run and the reports that were handed on.
pub record PerioServer : Type 0 where
  pub perio_list : Assoc ℕ PerioGroup  -- by period, in nanoseconds
  pub tickers : ℕ
  pub notified : List SessReport

pub data PerioEvent : Type 0 where
  perio_add : (lseid urrid period : ℕ) → PerioEvent
  perio_del : (lseid urrid : ℕ) → PerioEvent
  perio_timeout : (period : ℕ) → PerioEvent
  server_close : PerioEvent

abbrev pub ids_of : Option (List ℕ) → List ℕ
ids_of none = []
ids_of (some ids) = ids

-- `m[id] = struct{}{}`.
abbrev pub set_add : ℕ → List ℕ → List ℕ
set_add x ids = if member x ids then ids else x ∷ ids

abbrev pub set_remove : ℕ → List ℕ → List ℕ
set_remove x [] = []
set_remove x (y ∷ ys) = let rest = set_remove x ys in if x == y then rest else y ∷ rest

abbrev pub with_member : ℕ → ℕ → PerioGroup → PerioGroup
with_member seid urr g = insert seid (set_add urr (ids_of (lookup seid g))) g

-- TYPE_PERIO_ADD. `none` is the panic of time.NewTicker at a period of 0.
unfoldable pub add_urr : ℕ → ℕ → ℕ → PerioServer → Option PerioServer
add_urr seid urr period s = elim (lookup period s.perio_list) [
  | some g ↦ some (record s { perio_list = insert period (with_member seid urr g) s.perio_list })
  | none ↦
      (if period == 0
        then none
        else some (record s {
          perio_list = insert period (with_member seid urr []) s.perio_list;
          tickers = s.tickers + 1;
        }))
]

-- The group without the URR, and without the session where it was its last.
abbrev pub without_member : ℕ → ℕ → PerioGroup → PerioGroup
without_member seid urr g =
    let ids = set_remove urr (ids_of (lookup seid g)) in
    if length ids == 0 then delete seid g else insert seid ids g

-- TYPE_PERIO_DEL: the groups after it, and how many tickers were stopped. The loop ends at the first
-- group that has the URR.
unfoldable pub del_urr : ℕ → ℕ → Assoc ℕ PerioGroup → Assoc ℕ PerioGroup × ℕ
del_urr seid urr [] = ([], 0)
del_urr seid urr ((period, g) ∷ gs) =
    let rest = del_urr seid urr gs in
    let left = without_member seid urr g in
    if member urr (ids_of (lookup seid g))
    then if length left == 0 then (gs, 1) else ((period, left) ∷ gs, 0)
    else ((period, g) ∷ rest.0, rest.1)

-- The reports of one session, marked as periodic.
abbrev pub periodic_reports : List UsaReport → List Report
periodic_reports [] = []
periodic_reports (r ∷ rs) =
    usa (record r { usar_trigger = set_bit r.usar_trigger perio }) ∷ periodic_reports rs

abbrev pub session_reports : Assoc ℕ (List UsaReport) → List SessReport
session_reports [] = []
session_reports ((seid, rs) ∷ m) =
    record { seid = seid; reports = periodic_reports rs } ∷ session_reports m

abbrev pub is_close : PerioEvent → Bool
is_close server_close = true
is_close _ = false

-- `queryURR`, which the forwarder sets, is a parameter; `none` is its error.
module _ (query : PerioGroup → Option (Assoc ℕ (List UsaReport))) where
  abbrev pub answered : Option (Assoc ℕ (List UsaReport)) → PerioServer → PerioServer
  answered none s = s
  answered (some m) s = record s { notified = s.notified ++ session_reports m }

  -- TYPE_PERIO_TIMEOUT.
  unfoldable pub timeout : ℕ → PerioServer → PerioServer
  timeout period s = elim (lookup period s.perio_list) [ none ↦ s | some g ↦ answered (query g) s ]

  -- One round of `Serve`; TYPE_SERVER_CLOSE stops every ticker.
  unfoldable pub serve : PerioEvent → PerioServer → Option PerioServer
  unfolding add_urr del_urr timeout
  serve (perio_add seid urr period) s = add_urr seid urr period s
  serve (perio_del seid urr) s =
      let r = del_urr seid urr s.perio_list in
      some (record s { perio_list = r.0; tickers = s.tickers - r.1 })
  serve (perio_timeout period) s = some (timeout period s)
  serve server_close s =
      some (record s { perio_list = []; tickers = s.tickers - length s.perio_list })

  -- `Serve`, on the events of its channel; it returns at TYPE_SERVER_CLOSE.
  unfoldable pub serve_all : List PerioEvent → PerioServer → Option PerioServer
  unfolding serve
  serve_all [] s = some s
  serve_all (e ∷ es) s = elim (serve e s) [
    | none ↦ none
    | some s' ↦ let rest = serve_all es s' in if is_close e then some s' else rest
  ]
