-- ===== src/Pfcp/Sess/Queue.antt =====
-- internal/pfcp/node.go: the packets that a session holds back for each PDR. A channel of capacity
-- `qlen` is the list of what it holds, oldest first; only the server's goroutine pushes.
use go_upf.Base.{
  ℕ, Option, none, some, List, [], ◌∷◌, ◌++◌, length, lookup, insert, ltb, if◌then◌else◌, nat_eq,
}
use go_upf.Pfcp.Sess.{Sess}

abbrev pub channel : Sess → ℕ → List (List ℕ)
channel s id = elim (lookup id s.q) [ none ↦ [] | some q ↦ q ]

-- A full channel drops the packet; the first push makes the channel.
unfoldable pub push : Sess → ℕ → List ℕ → Sess
push s id p =
    let q = channel s id in
    record s { q = insert id (if ltb (length q) s.qlen then q ++ p ∷ [] else q) s.q }

unfoldable pub len : Sess → ℕ → ℕ
len s id = length (channel s id)

abbrev pub take_first : Sess → ℕ → List (List ℕ) → Option (List ℕ) × Sess
take_first s id [] = (none, s)
take_first s id (p ∷ q) = (some p, record s { q = insert id q s.q })

unfoldable pub pop : Sess → ℕ → Option (List ℕ) × Sess
pop s id = take_first s id (channel s id)
