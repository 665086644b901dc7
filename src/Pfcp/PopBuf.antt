-- ===== src/Pfcp/PopBuf.antt =====
-- internal/pfcp/pfcp.go: PopBufPkt, by which the kernel forwarder fetches the packets that a session
-- holds back.
use go_upf.Base.{
  ℕ, zero, suc, ◌-◌, ◌<◌, ◌≡◌, refl, sym, ap, ◌∙◌, Option, none, some, List, [], ◌∷◌, length, set,
  Bytes, insert, lookup-insert, nat_eq, nat_pair_beq, arith, ◌==◌, if◌then◌else◌, Bool-cases, inl,
  inr,
}
use go_upf.Pfcp.Sess.{Sess}
use go_upf.Pfcp.Sess.Queue.{channel, pop}
use go_upf.Pfcp.Node.{LocalNode, slot, local_sess}
use go_upf.Pfcp.Node.Table.{
  slot-set_self, slot-set_ne, local_sess-slot, local_sess-zero, local_sess-agree, slot-within,
}
use go_upf.Forwarder.Gtp5g.Kernel.{Handler, HandlerLaws}

-- `sess` is a pointer into the table.
abbrev pub put_back : LocalNode → ℕ → Option Bytes × Sess → Option Bytes × LocalNode
put_back n seid (p, s) = (p, record n { sess = set n.sess (seid - 1) (some s) })

abbrev pub pop_from : LocalNode → ℕ → ℕ → Option Sess → Option Bytes × LocalNode
pop_from n seid pdrid none = (none, n)
pop_from n seid pdrid (some s) = put_back n seid (pop s pdrid)

-- `PopBufPkt`.
unfoldable pub pop_buf_pkt : LocalNode → ℕ → ℕ → Option Bytes × LocalNode
unfolding local_sess pop
pop_buf_pkt n seid pdrid = pop_from n seid pdrid (local_sess n seid)

abbrev pub queue_of : Option Sess → ℕ → List Bytes
queue_of none pdrid = []
queue_of (some s) pdrid = channel s pdrid

-- The table of sessions as the handler of the kernel forwarder.
abbrev pub pfcp_handler : Handler LocalNode
pfcp_handler = record {
  pop_buf_pkt = pop_buf_pkt;
  queue = λ n seid pdrid. queue_of (local_sess n seid) pdrid;
}

none_of : {s : Sess} → ¬ (none ≡ some s)
none_of e = cc

slot_in_table :
    (n : LocalNode) (seid : ℕ) (s : Sess)
    → local_sess n seid ≡ some s
    → (i : ℕ) × (seid ≡ suc i) × (i < length n.sess)
slot_in_table n zero s e = absurd (none_of (sym (local_sess-zero n) ∙ e))
slot_in_table n (suc i) s e = (i, refl, slot-within n.sess i (sym (local_sess-slot n i) ∙ e))

set_same : (l : List (Option Sess)) (i : ℕ) (s : Sess) → slot l i ≡ some s → set l i (some s) ≡ l
set_same [] i s e = refl
set_same (o ∷ l) zero s e = ap (λ x. x ∷ l) (sym e)
set_same (o ∷ l) (suc i) s e = ap (◌∷◌ o) (set_same l i s e)

-- Writing a session back to its slot changes what its identifier gives, and no other one.
local_sess-put_back :
    (n : LocalNode) (i j : ℕ) (s : Sess)
    → i < length n.sess
    → local_sess (record n { sess = set n.sess i (some s) }) j
      ≡ (if suc i == j then some s else local_sess n j)
local_sess-put_back n i j s h = elim (Bool-cases (suc i == j)) [
  | inl e ↦
      let same : suc i ≡ j = ground (arith, e) in
      rw e (
        ap (local_sess written) (sym same)
        ∙ (local_sess-slot written i ∙ slot-set_self n.sess i (some s) h))
  | inr e ↦ rw e (
      local_sess-agree written n i j (λ k d. slot-set_ne n.sess i k (some s) d)
        (λ q. absurd (ground (arith, e, q))))
]
  where
    written : LocalNode
    written = record n { sess = set n.sess i (some s) }

pop-empty : (s : Sess) (id : ℕ) → channel s id ≡ [] → pop s id ≡ (none, s)
unfolding pop
pop-empty s id e = rw e refl

pop-front :
    (s : Sess) (id : ℕ) (p : Bytes) (ps : List Bytes)
    → channel s id ≡ p ∷ ps
    → pop s id ≡ (some p, record s { q = insert id ps s.q })
unfolding pop
pop-front s id p ps e = rw e refl

channel-insert :
    (s : Sess) (id j : ℕ) (ps : List Bytes)
    → channel (record s { q = insert id ps s.q }) j ≡ (if id == j then ps else channel s j)
channel-insert s id j ps = ground (arith, lookup-insert id j ps s.q)

empty-pop_from :
    (n : LocalNode) (seid pdrid : ℕ) (o : Option Sess)
    → local_sess n seid ≡ o
    → queue_of o pdrid ≡ []
    → pop_from n seid pdrid o ≡ (none, n)
empty-pop_from n seid pdrid none e q = refl
empty-pop_from n seid pdrid (some s) e q =
    let (i, at, inside) = slot_in_table n seid s e in
    let here : slot n.sess i ≡ some s =
      sym (local_sess-slot n i) ∙ (ap (local_sess n) (sym at) ∙ e) in
    let index : seid - 1 ≡ i = omega arith in
    rw (pop-empty s pdrid q, index)
      (ap (λ l. (none, record n { sess = l })) (set_same n.sess i s here))

queue-written :
    (n : LocalNode) (i pdrid : ℕ) (s : Sess) (ps : List Bytes) (k j : ℕ)
    → i < length n.sess
    → local_sess n (suc i) ≡ some s
    → queue_of
        (local_sess
          (record n { sess = set n.sess i (some (record s { q = insert pdrid ps s.q })) })
          k)
        j
      ≡ (if nat_pair_beq (suc i, pdrid) (k, j) then ps else queue_of (local_sess n k) j)
queue-written n i pdrid s ps k j h e = elim (Bool-cases (suc i == k)) [
  | inl b ↦
      let same : suc i ≡ k = ground (arith, b) in
      let found : local_sess n k ≡ some s = ap (local_sess n) (sym same) ∙ e in
      rw (local_sess-put_back n i k (record s { q = insert pdrid ps s.q }) h, b, found)
        (channel-insert s pdrid j ps)
  | inr b ↦ rw (local_sess-put_back n i k (record s { q = insert pdrid ps s.q }) h, b) refl
]

front-pop_from :
    (n : LocalNode) (seid pdrid : ℕ) (o : Option Sess) (p : Bytes) (ps : List Bytes)
    → local_sess n seid ≡ o
    → queue_of o pdrid ≡ p ∷ ps
    → (n' : LocalNode) × (pop_from n seid pdrid o ≡ (some p, n'))
      × ((k j : ℕ)
          → queue_of (local_sess n' k) j
            ≡ (if nat_pair_beq (seid, pdrid) (k, j) then ps else queue_of (local_sess n k) j))
front-pop_from n seid pdrid none p ps e q = absurd cc
front-pop_from n seid pdrid (some s) p ps e q =
    let (i, at, inside) = slot_in_table n seid s e in
    let index : seid - 1 ≡ i = omega arith in
    (
      record n { sess = set n.sess i (some (record s { q = insert pdrid ps s.q })) },
      rw (pop-front s pdrid p ps q, index) refl,
      λ k j. rw at (queue-written n i pdrid s ps k j inside (ap (local_sess n) (sym at) ∙ e)),
    )

-- PopBufPkt gives the oldest packet that a session holds back for a PDR, and takes it from that
-- queue and no other. Where the session is missing or holds none, it says so and changes nothing.
pub pfcp_handler_lem : HandlerLaws pfcp_handler
unfolding pop_buf_pkt
pfcp_handler_lem = record {
  empty = λ n seid pdrid q. empty-pop_from n seid pdrid (local_sess n seid) refl q;
  front = λ n seid pdrid p ps q. front-pop_from n seid pdrid (local_sess n seid) p ps refl q;
}
