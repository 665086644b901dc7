-- ===== src/Tests/Handlers.antt =====
-- The handlers on concrete input.
use go_upf.Base.{
  ℕ, List, ◌++◌, ◌%◌, ◌^◌, ◌+◌, ◌≡◌, refl, ap, subst, arith, true, Option, none, some, [], ◌∷◌,
  ◌==◌, nat_eq,
}
use go_upf.Report.{UsaReport, DldReport, dld, zero_volume}
use go_upf.Forwarder.{empty_driver}
use go_upf.Pfcp.Sess.{Sess, has}
use go_upf.Pfcp.Sess.Close.{far_ie}
use go_upf.Pfcp.Node.Table.{IsValid}
use go_upf.Pfcp.Node.{local_sess, local_new_sess, node_sess}
use go_upf.Pfcp.Node.Remote.{Ended}
use go_upf.Pfcp.Server.{Server}
use go_upf.Pfcp.Session.{EstablishmentRequest}
use go_upf.Pfcp.Session.Establish.{handle_establishment}
use go_upf.Pfcp.Session.Established.{Established, handle_establishment-Established}
use go_upf.Pfcp.Session.Remove.{handle_deletion}
use go_upf.Pfcp.Session.Deleted.{handle_deletion-Ended}
use go_upf.Pfcp.Association.{AssociationRequest, handle_association_setup}
use go_upf.Pfcp.Association.Restart.{owned, Associated, handle_association_setup-Ended}
use go_upf.Pfcp.Serve.{numbered_reports, serve_reports}
use go_upf.Pfcp.Serve.Dropped.{usas, serve_reports-drops}
use go_upf.Pfcp.Serve.Numbered.{
  next_number, count, numbers, consecutive, numbered_reports-consecutive,
}
use go_upf.Pfcp.Loop.{
  association_setup, session_establishment, packet, receive_request, step, valid_length, is_request,
}
use go_upf.Pfcp.Loop.Valid.{Reaches, at_start, after, Reaches-IsValid}
use go_upf.Tests.Sess.{one_urr}
use go_upf.Tests.Node.{empty_table, empty_table-IsValid, one_node, one_session-IsValid}
use go_upf.Tests.Server.{smf_addr, started, retry_three_times}

-- The node smf is associated, and a request of number 3 is being handled.
abbrev associated : Server (Unit {0})
associated = record started {
  world = record one_node { lnode = empty_table };
  rnodes = ("smf", 0) ∷ [];
  rx_trans = ((smf_addr, 3), record { raddr = smf_addr; seq = 3; msg_buf = none }) ∷ [];
}

abbrev one_far : EstablishmentRequest
one_far = record {
  seq = 3;
  node_id = some (some "smf");
  cp_fseid = some (some 9);
  create_fars = far_ie 4 ∷ [];
  create_qers = [];
  create_urrs = [];
  create_bar = none;
  create_pdrs = [];
}

handle_establishment-Established_example :
    (s : Sess) × Established empty_driver associated
      (handle_establishment empty_driver associated smf_addr one_far)
      smf_addr
      0
      9
      one_far
      s
handle_establishment-Established_example =
    handle_establishment-Established empty_driver associated smf_addr one_far "smf" 0 9
      (record { raddr = smf_addr; seq = 3; msg_buf = none }) empty_table-IsValid refl refl refl refl

-- The node has the session 1.
abbrev serving : Server (Unit {0})
serving = record associated { world = one_node }

abbrev node_of : Option Sess → ℕ
node_of none = 0
node_of (some s) = s.rnode

owned_by_smf :
    (s : Sess)
    → local_sess serving.world.lnode 1 ≡ some s
    → has (node_sess serving.world s.rnode) 1 ≡ true
unfolding local_sess local_new_sess
owned_by_smf s e = subst (λ p. has (node_sess serving.world p) 1 ≡ true) (ap node_of e) refl

handle_deletion-Ended_example :
    let sv' = handle_deletion empty_driver serving smf_addr 1 3 in
    Ended empty_driver serving.world sv'.world (λ j. j == 1)
    × (local_sess serving.world.lnode 1 ≡ none → sv'.world ≡ serving.world)
handle_deletion-Ended_example =
    handle_deletion-Ended empty_driver serving smf_addr 1 3 one_session-IsValid owned_by_smf

abbrev restart : AssociationRequest
restart = record { seq = 3; node_id = some (some "smf"); recovery = some (some 100) }

handle_association_setup-Ended_example :
    let sv' = handle_association_setup empty_driver serving smf_addr restart in
    Ended empty_driver serving.world sv'.world (λ j. owned empty_driver serving "smf" j)
    × Associated empty_driver sv' "smf" smf_addr
handle_association_setup-Ended_example =
    handle_association_setup-Ended empty_driver serving smf_addr restart "smf" 100
      one_session-IsValid refl refl refl

abbrev of_urr_7 : UsaReport
of_urr_7 = record {
  urrid = 7;
  urseqn = 0;
  usar_trigger = 1;
  volum_measure = zero_volume;
  durat_measure = 0;
  query_urr_ref = 0;
  start_time = 0;
  end_time = 0;
}

numbered_reports-consecutive_example :
    let (ies, s') = numbered_reports one_urr (of_urr_7 ∷ of_urr_7 ∷ []) in
    (numbers 7 ies ≡ consecutive 0 (count 7 (of_urr_7 ∷ of_urr_7 ∷ [])))
    × (next_number s'.urr_ids 7 ≡ some ((0 + count 7 (of_urr_7 ∷ of_urr_7 ∷ [])) % 2 ^ 32))
numbered_reports-consecutive_example =
    numbered_reports-consecutive (of_urr_7 ∷ of_urr_7 ∷ []) one_urr 7 0 (omega arith) refl

-- A packet of eight bytes whose length field is right.
abbrev eight_bytes : List ℕ
eight_bytes = 0x20 ∷ 5 ∷ 0 ∷ 4 ∷ 0 ∷ 0 ∷ 0 ∷ 0 ∷ []

abbrev after_setup : Server (Unit {0})
after_setup = receive_request empty_driver started smf_addr (association_setup restart)

abbrev established : Server (Unit {0})
established =
    receive_request empty_driver after_setup smf_addr
      (session_establishment (record one_far { seq = 4 }))

-- Two rounds of the main loop: an association, and a session.
two_rounds : Reaches empty_driver retry_three_times some started established
unfolding step valid_length is_request
two_rounds =
    after after_setup
      (packet smf_addr eight_bytes (some (session_establishment (record one_far { seq = 4 }))))
      established
      (after started (packet smf_addr eight_bytes (some (association_setup restart))) after_setup
        at_start refl)
      refl

Reaches-IsValid_example : IsValid established.world.lnode
Reaches-IsValid_example =
    Reaches-IsValid empty_driver retry_three_times some started established two_rounds
      empty_table-IsValid

-- A packet that is buffered without notice.
abbrev quiet : DldReport
quiet = record { pdrid = 1; action = 4; buf_pkt = 1 ∷ [] }

serve_reports-drops_example :
    (serve_reports serving smf_addr 1 [] (usas (of_urr_7 ∷ []) ++ dld quiet ∷ [])).sent
    ≡ serving.sent
serve_reports-drops_example =
    serve_reports-drops (of_urr_7 ∷ []) quiet [] serving smf_addr 1 [] refl
