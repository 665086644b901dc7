-- ===== src/Tests/Node.antt =====
-- The table of sessions and the remote nodes on concrete input.
use go_upf.Base.{◌≡◌, refl, arith, none, some, [], ◌∷◌}
use go_upf.Forwarder.{empty_driver}
use go_upf.Pfcp.Sess.{Sess}
use go_upf.Pfcp.Sess.Close.{close}
use go_upf.Pfcp.Node.{
  LocalNode, RemoteNode, Nodes, Closed, local_sess, local_new_sess, local_delete_sess, node_reset,
  buffq_len,
}
use go_upf.Pfcp.Node.Table.{IsValid}
use go_upf.Pfcp.Node.TableInvariant.{Cleared, local_new_sess-IsValid, local_delete_sess-Cleared}
use go_upf.Pfcp.Node.Remote.{node_reset-Ended}

abbrev pub empty_table : LocalNode
empty_table = record { sess = []; free = [] }

pub empty_table-IsValid : IsValid empty_table
empty_table-IsValid = record {
  free_empty = λ f m. cc;
  empty_free = λ i h e. absurd (omega arith);
  distinct = tt;
  numbered = λ i s e. cc;
}

-- The first session, of remote SEID 9.
abbrev first : Sess
first = (local_new_sess empty_table 0 9 buffq_len).0

abbrev one_session : LocalNode
one_session = (local_new_sess empty_table 0 9 buffq_len).1

local_new_sess_counts_up : (local_new_sess one_session 0 8 buffq_len).0.local_id ≡ 2
unfolding local_new_sess
local_new_sess_counts_up = refl

pub one_session-IsValid : IsValid one_session
one_session-IsValid = local_new_sess-IsValid empty_table 0 9 buffq_len empty_table-IsValid

local_delete_sess-Cleared_example :
    (c : Closed (Unit {0})) × (local_delete_sess empty_driver one_session 1 tt ≡ some c)
    × (c.usars ≡ (close empty_driver first tt).0)
    × Cleared empty_driver one_session 1 c.lnode
unfolding local_new_sess local_sess
local_delete_sess-Cleared_example =
    local_delete_sess-Cleared empty_driver one_session 1 tt first one_session-IsValid refl

-- One control plane node that has the session.
abbrev smf : RemoteNode
smf = record { id = "smf"; addr = "10.0.0.1:8805"; sess = (1, tt) ∷ [] }

abbrev pub one_node : Nodes (Unit {0})
one_node = record { lnode = one_session; nodes = smf ∷ []; driver = tt }

node_reset_ends_it : local_sess (node_reset empty_driver one_node 0).lnode 1 ≡ none
unfolding local_new_sess node_reset local_sess
node_reset_ends_it = (node_reset-Ended empty_driver one_node 0 one_session-IsValid).1 1 refl
