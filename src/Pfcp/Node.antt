-- ===== src/Pfcp/Node.antt =====
-- internal/pfcp/node.go: LocalNode, the table of the sessions by local SEID, and RemoteNode, the
-- sessions of one control plane node. Remote nodes are objects that sessions point to, so they
-- stand in a list, and a pointer to one is its index.
pub mod Table
pub mod TableInvariant
pub mod Remote
pub mod Store
use go_upf.Base.{
  ℕ, suc, ◌+◌, ◌-◌, Bool, true, false, Option, none, some, List, [], ◌∷◌, ◌++◌, String, length,
  get_elem?, set, lookup, insert, delete, ltb, ◌==◌, if◌then◌else◌, nat_eq, string_eq,
}
use go_upf.Report.{UsaReport}
use go_upf.Forwarder.{Driver}
use go_upf.Pfcp.Sess.{Sess, IdSet, has, keys}
use go_upf.Pfcp.Sess.Close.{close}

pub record LocalNode : Type 0 where
  pub sess : List (Option Sess)
  pub free : List ℕ  -- the end of the slice is the head of the list

pub record RemoteNode : Type 0 where
  pub id : String
  pub addr : String  -- what addr.String() returns
  pub sess : IdSet

-- BUFFQ_LEN
abbrev pub buffq_len : ℕ
buffq_len = 512

-- `n.sess[idx]`, where nil and no such index are one answer.
abbrev pub slot : List (Option Sess) → ℕ → Option Sess
slot l i = elim (get_elem? l i) [ none ↦ none | some o ↦ o ]

-- `LocalNode.Sess`.
unfoldable pub local_sess : LocalNode → ℕ → Option Sess
local_sess n seid =
    if seid == 0 then none else if ltb (length n.sess) seid then none else slot n.sess (seid - 1)

abbrev fresh_sess : ℕ → ℕ → ℕ → ℕ → Sess
fresh_sess rnode local_id remote_id qlen = record {
  rnode = rnode;
  local_id = local_id;
  remote_id = remote_id;
  pdr_ids = [];
  far_ids = [];
  qer_ids = [];
  urr_ids = [];
  bar_ids = [];
  q = [];
  qlen = qlen;
}

-- `LocalNode.NewSess`, with the pointer `rnode` that `RemoteNode.NewSess` sets: the identifier that
-- was freed last, or else one more than there were.
unfoldable pub local_new_sess : LocalNode → ℕ → ℕ → ℕ → Sess × LocalNode
local_new_sess n rnode remote_id qlen = elim n.free [
  | [] ↦
      let s = fresh_sess rnode (length n.sess + 1) remote_id qlen in
      (s, record n { sess = n.sess ++ some s ∷ [] })
  | id ∷ rest ↦
      let s = fresh_sess rnode id remote_id qlen in
      (s, record { sess = set n.sess (id - 1) (some s); free = rest })
]

-- The session object after `Close`, which the caller of `DeleteSess` may still hold.
pub record Closed (S : Type 0) : Type 0 where
  pub usars : List UsaReport
  pub sess : Sess
  pub lnode : LocalNode
  pub driver : S

module _ {S : Type 0} (d : Driver S) where
  abbrev close_slot : LocalNode → ℕ → S → Option Sess → Option (Closed S)
  close_slot n seid st none = none
  close_slot n seid st (some s) =
      let (us, s', st') = close d s st in
      some (record {
        usars = us;
        sess = s';
        lnode = record { sess = set n.sess (seid - 1) none; free = seid ∷ n.free };
        driver = st';
      })

  -- `LocalNode.DeleteSess`; `none` is its error.
  unfoldable pub local_delete_sess : LocalNode → ℕ → S → Option (Closed S)
  unfolding local_sess
  local_delete_sess n seid st = close_slot n seid st (local_sess n seid)

  abbrev close_all : S → List (Option Sess) → S
  close_all st [] = st
  close_all st (none ∷ l) = close_all st l
  close_all st (some s ∷ l) = let (us, s', st') = close d s st in close_all st' l

  -- `LocalNode.Reset`.
  unfoldable pub local_reset : LocalNode → S → LocalNode × S
  local_reset n st = (record { sess = []; free = [] }, close_all st n.sess)

-- What the operations of a remote node read and write.
pub record Nodes (S : Type 0) : Type 0 where
  pub lnode : LocalNode
  pub nodes : List RemoteNode
  pub driver : S

-- `LocalNode.RemoteSess`: a slot that is nil is dereferenced.
pub data Found : Type 0 where
  found : Sess → Found
  missing nil_pointer : Found

-- `s.rnode.addr.String() == addr.String()`.
abbrev pub has_addr : List RemoteNode → ℕ → String → Bool
has_addr nodes p a = elim (get_elem? nodes p) [ none ↦ false | some n ↦ string_eq.beq n.addr a ]

unfoldable pub remote_sess_in : List RemoteNode → List (Option Sess) → ℕ → String → Found
remote_sess_in nodes [] rseid a = missing
remote_sess_in nodes (none ∷ l) rseid a = nil_pointer
remote_sess_in nodes (some s ∷ l) rseid a =
    let rest = remote_sess_in nodes l rseid a in
    if s.remote_id == rseid then if has_addr nodes s.rnode a then found s else rest else rest

module _ {S : Type 0} where
  unfoldable pub remote_sess : Nodes S → ℕ → String → Found
  unfolding remote_sess_in
  remote_sess w rseid a = remote_sess_in w.nodes w.lnode.sess rseid a

  abbrev pub node_sess : Nodes S → ℕ → IdSet
  node_sess w p = elim (get_elem? w.nodes p) [ none ↦ [] | some n ↦ n.sess ]

  abbrev pub set_sess : Nodes S → ℕ → IdSet → List RemoteNode
  set_sess w p ids = elim (get_elem? w.nodes p) [
    | none ↦ w.nodes
    | some n ↦ set w.nodes p (record n { sess = ids })
  ]

  -- `RemoteNode.Sess`.
  unfoldable pub node_find_sess : Nodes S → ℕ → ℕ → Option Sess
  node_find_sess w p seid = if has (node_sess w p) seid then local_sess w.lnode seid else none

  -- `RemoteNode.NewSess`.
  unfoldable pub node_new_sess : Nodes S → ℕ → ℕ → Sess × Nodes S
  node_new_sess w p remote_id =
      let (s, n) = local_new_sess w.lnode p remote_id buffq_len in
      (s, record w { lnode = n; nodes = set_sess w p (insert s.local_id tt (node_sess w p)) })

  module _ (d : Driver S) where
    -- `RemoteNode.DeleteSess`, with the session object that it closed.
    unfoldable pub node_delete_sess : Nodes S → ℕ → ℕ → Option (Closed S) × Nodes S
    node_delete_sess w p seid =
        let nodes = set_sess w p (delete seid (node_sess w p)) in
        if has (node_sess w p) seid
        then elim (local_delete_sess d w.lnode seid w.driver) [
          | none ↦ (none, record w { nodes = nodes })
          | some c ↦ (some c, record { lnode = c.lnode; nodes = nodes; driver = c.driver })
        ]
        else (none, w)

    unfoldable pub node_delete_all : Nodes S → ℕ → List ℕ → Nodes S
    node_delete_all w p [] = w
    node_delete_all w p (seid ∷ ids) = node_delete_all (node_delete_sess w p seid).1 p ids

    -- `RemoteNode.Reset`.
    unfoldable pub node_reset : Nodes S → ℕ → Nodes S
    unfolding node_delete_all
    node_reset w p =
        let w' = node_delete_all w p (keys (node_sess w p)) in
        record w' { nodes = set_sess w' p [] }
