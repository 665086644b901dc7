-- ===== src/Pfcp/Loop/Panic.antt =====
-- internal/pfcp/pfcp.go: a response of SEID 0, while the slot of a closed session is empty.
use go_upf.Base.{ℕ, ◌≡◌, refl, Option, none, some, List, ◌∷◌, ◌++◌, String, lookup, pair_eq}
use go_upf.Forwarder.{Driver}
use go_upf.Pfcp.Sess.{Sess}
use go_upf.Pfcp.Node.{missing, nil_pointer, remote_sess_in, remote_sess}
use go_upf.Pfcp.Node.Remote.{remote_sess_in-nil}
use go_upf.Pfcp.Server.{Server, TxTransaction}
use go_upf.Pfcp.Session.Remove.{handle_report_response}
use go_upf.Pfcp.Loop.{session_report_response, receive_response, sequence}

module _ {S : Type 0} (d : Driver S) where
  -- A Session Report Response with SEID 0, to a request that is open, panics if in the table of
  -- sessions an empty slot stands before every session that the request could mean.
  pub receive_response-panics :
      (sv : Server S) (addr : String) (seq : ℕ) (tx : TxTransaction) (l rest : List (Option Sess))
      → lookup (addr, seq) sv.tx_trans ≡ some tx
      → sv.world.lnode.sess ≡ l ++ none ∷ rest
      → remote_sess_in sv.world.nodes l tx.req.seid addr ≡ missing
      → receive_response d sv addr (session_report_response 0 seq) ≡ none
  unfolding receive_response handle_report_response sequence
  receive_response-panics sv addr seq tx l rest e shape before =
      rw (e, receive_response) (rw (lookup_panics) refl)
    where
      lookup_panics : remote_sess sv.world tx.req.seid addr ≡ nil_pointer
      lookup_panics =
          unfold remote_sess in
          (rw shape (remote_sess_in-nil sv.world.nodes l rest tx.req.seid addr before))
