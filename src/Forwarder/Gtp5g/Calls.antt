-- ===== src/Forwarder/Gtp5g/Calls.antt =====
-- internal/forwarder/gtp5g.go and perio/server.go: the calls of the forwarder, and the timers that they
-- ask for.
use go_upf.Base.{
  ℕ, ◌≡◌, refl, sym, subst, ◌∙◌, Option, none, some, List, [], ◌∷◌, Assoc, nat_eq, Bool-cases,
  Option-cases, inl, inr,
}
use go_upf.Gtpv1.{has_bit}
use go_upf.Report.{UsaReport, perio}
use go_upf.Perio.{PerioServer, PerioGroup}
use go_upf.Userspace.Parse.Far.{
  FarElement, far_id_el, apply_action_el, forwarding_el, bar_id_el, other_far_el,
}
use go_upf.Forwarder.{Ie}
use go_upf.Forwarder.Gtp5g.Pdr.{Request, no_request}
use go_upf.Forwarder.Gtp5g.Far.{action_of, far_request_element}
use go_upf.Forwarder.Gtp5g.Urr.{UrrRequest}
use go_upf.Forwarder.Gtp5g.Kernel.{RuleKind, a_pdr, a_far, a_qer, a_bar, Gtp5gnl, Handler, Gtp5g}
use go_upf.Forwarder.Gtp5g.Apply.{apply_action}
use go_upf.Forwarder.Gtp5g.Rules.{
  Decoders, to_create, to_update, to_remove, create_pdr, update_pdr, remove_pdr, create_far,
  update_far, remove_far, create_qer, update_qer, remove_qer, create_urr_with, create_urr,
  update_urr_with, update_urr, remove_urr_with, remove_urr, create_bar, update_bar, remove_bar,
  applied, update_far_loop, update_far_with,
}
use go_upf.Forwarder.Gtp5g.Periods.{
  Timed, Timed-append, Served, serve_all-Served, HasPeriod, create_urr_request-HasPeriod,
}

-- A call of a method of the driver that changes its state.
pub data Call : Type 0 where
  call_create_pdr call_update_pdr call_remove_pdr : ℕ → Ie → Call
  call_create_far call_update_far call_remove_far : ℕ → Ie → Call
  call_create_qer call_update_qer call_remove_qer : ℕ → Ie → Call
  call_create_urr call_update_urr call_remove_urr : ℕ → Ie → Call
  call_create_bar call_update_bar call_remove_bar : ℕ → Ie → Call

module _ {K H : Type 0} (dec : Decoders) (nl : Gtp5gnl K) (hd : Handler H) where
  abbrev pub after_call : Call → Gtp5g K H → Gtp5g K H
  after_call (call_create_pdr seid ie) g = (create_pdr dec nl hd g seid ie).1
  after_call (call_update_pdr seid ie) g = (update_pdr dec nl hd g seid ie).1
  after_call (call_remove_pdr seid ie) g = (remove_pdr dec nl hd g seid ie).1
  after_call (call_create_far seid ie) g = (create_far dec nl hd g seid ie).1
  after_call (call_update_far seid ie) g = (update_far dec nl hd g seid ie).1
  after_call (call_remove_far seid ie) g = (remove_far dec nl hd g seid ie).1
  after_call (call_create_qer seid ie) g = (create_qer dec nl hd g seid ie).1
  after_call (call_update_qer seid ie) g = (update_qer dec nl hd g seid ie).1
  after_call (call_remove_qer seid ie) g = (remove_qer dec nl hd g seid ie).1
  after_call (call_create_urr seid ie) g = (create_urr dec nl hd g seid ie).1
  after_call (call_update_urr seid ie) g = (update_urr dec nl hd g seid ie).1
  after_call (call_remove_urr seid ie) g = (remove_urr dec nl hd g seid ie).1
  after_call (call_create_bar seid ie) g = (create_bar dec nl hd g seid ie).1
  after_call (call_update_bar seid ie) g = (update_bar dec nl hd g seid ie).1
  after_call (call_remove_bar seid ie) g = (remove_bar dec nl hd g seid ie).1

  abbrev pub after_calls : List Call → Gtp5g K H → Gtp5g K H
  after_calls [] g = g
  after_calls (c ∷ cs) g = after_calls cs (after_call c g)

  abbrev Keeps : Gtp5g K H → Gtp5g K H → Type 0
  Keeps g g' = g'.perio_events ≡ g.perio_events

  to_create-Keeps :
      (kind : RuleKind) (g : Gtp5g K H) (seid : ℕ) (r : Option Request)
      → Keeps g (to_create dec nl hd kind g seid r).1
  to_create-Keeps kind g seid none = refl
  to_create-Keeps kind g seid (some r) = refl

  to_update-Keeps :
      (kind : RuleKind) (g : Gtp5g K H) (seid : ℕ) (r : Option Request)
      → Keeps g (to_update dec nl hd kind g seid r).1
  to_update-Keeps kind g seid none = refl
  to_update-Keeps kind g seid (some r) = refl

  to_remove-Keeps :
      (kind : RuleKind) (g : Gtp5g K H) (seid : ℕ) (id : Option ℕ)
      → Keeps g (to_remove dec nl hd kind g seid id).1
  to_remove-Keeps kind g seid none = refl
  to_remove-Keeps kind g seid (some id) = refl

  applied-Keeps :
      (seid : ℕ) (r : Request) (x : FarElement) (g : Gtp5g K H)
      → Keeps g (applied dec nl hd seid r x g)
  unfolding apply_action
  applied-Keeps seid r (far_id_el v) g = refl
  applied-Keeps seid r (bar_id_el v) g = refl
  applied-Keeps seid r (forwarding_el v) g = refl
  applied-Keeps seid r other_far_el g = refl
  applied-Keeps seid r (apply_action_el v) g = elim (Option-cases (action_of v)) [
    | inl e ↦ rw (e, applied) refl
    | inr (a, e) ↦ rw (e, applied) refl
  ]

  update_far_loop-Keeps :
      (xs : List FarElement) (seid : ℕ) (r : Request) (g : Gtp5g K H)
      → Keeps g (update_far_loop dec nl hd seid r xs g).1
  unfolding update_far_loop
  update_far_loop-Keeps [] seid r g = refl
  update_far_loop-Keeps (x ∷ xs) seid r g =
      elim (Option-cases (far_request_element dec.has_teid dec.has_ipv4 r x)) [
        | inl e ↦ rw (e, update_far_loop) refl
        | inr (r', e) ↦
            rw (e, update_far_loop)
              (update_far_loop-Keeps xs seid r' (applied dec nl hd seid r x g)
                ∙ applied-Keeps seid r x g)
      ]

  update_far_with-Keeps :
      (g : Gtp5g K H) (seid : ℕ) (els : Option (List FarElement))
      → Keeps g (update_far_with dec nl hd g seid els).1
  update_far_with-Keeps g seid none = refl
  update_far_with-Keeps g seid (some ies) =
      let (r, g') = update_far_loop dec nl hd seid no_request ies g in
      to_update-Keeps a_far g' seid r ∙ update_far_loop-Keeps ies seid no_request g

  -- The events that a call adds have periods.
  create_urr_with-Timed :
      (g : Gtp5g K H) (seid : ℕ) (o : Option UrrRequest)
      → HasPeriod o
      → Timed g.perio_events
      → Timed (create_urr_with dec nl hd g seid o).1.perio_events
  create_urr_with-Timed g seid none p h = h
  create_urr_with-Timed g seid (some r) p h = elim (Bool-cases (has_bit r.rpt_trig perio)) [
    | inl e ↦ rw e (Timed-append g.perio_events _ h (p e, tt))
    | inr e ↦ rw e h
  ]

  update_urr_with-Keeps :
      (g : Gtp5g K H) (seid : ℕ) (o : Option UrrRequest)
      → Keeps g (update_urr_with dec nl hd g seid o).1
  update_urr_with-Keeps g seid none = refl
  update_urr_with-Keeps g seid (some r) = refl

  remove_urr_with-Timed :
      (g : Gtp5g K H) (seid : ℕ) (o : Option ℕ)
      → Timed g.perio_events
      → Timed (remove_urr_with dec nl hd g seid o).1.perio_events
  remove_urr_with-Timed g seid none h = h
  remove_urr_with-Timed g seid (some id) h = Timed-append g.perio_events _ h tt

  after_call-Timed :
      (c : Call) (g : Gtp5g K H) → Timed g.perio_events → Timed (after_call c g).perio_events
  unfolding create_pdr update_pdr remove_pdr create_far update_far remove_far create_qer update_qer
      remove_qer create_urr update_urr remove_urr create_bar update_bar remove_bar
  after_call-Timed (call_create_pdr seid ie) g h =
      subst Timed (sym (to_create-Keeps a_pdr g seid _)) h
  after_call-Timed (call_update_pdr seid ie) g h =
      subst Timed (sym (to_update-Keeps a_pdr g seid _)) h
  after_call-Timed (call_remove_pdr seid ie) g h =
      subst Timed (sym (to_remove-Keeps a_pdr g seid _)) h
  after_call-Timed (call_create_far seid ie) g h =
      subst Timed (sym (to_create-Keeps a_far g seid _)) h
  after_call-Timed (call_remove_far seid ie) g h =
      subst Timed (sym (to_remove-Keeps a_far g seid _)) h
  after_call-Timed (call_create_qer seid ie) g h =
      subst Timed (sym (to_create-Keeps a_qer g seid _)) h
  after_call-Timed (call_update_qer seid ie) g h =
      subst Timed (sym (to_update-Keeps a_qer g seid _)) h
  after_call-Timed (call_remove_qer seid ie) g h =
      subst Timed (sym (to_remove-Keeps a_qer g seid _)) h
  after_call-Timed (call_create_bar seid ie) g h =
      subst Timed (sym (to_create-Keeps a_bar g seid _)) h
  after_call-Timed (call_update_bar seid ie) g h =
      subst Timed (sym (to_update-Keeps a_bar g seid _)) h
  after_call-Timed (call_remove_bar seid ie) g h =
      subst Timed (sym (to_remove-Keeps a_bar g seid _)) h
  after_call-Timed (call_update_far seid ie) g h =
      subst Timed (sym (update_far_with-Keeps g seid (dec.far_elements ie))) h
  after_call-Timed (call_create_urr seid ie) g h =
      create_urr_with-Timed g seid _ (create_urr_request-HasPeriod (dec.urr_elements ie)) h
  after_call-Timed (call_update_urr seid ie) g h =
      subst Timed (sym (update_urr_with-Keeps g seid _)) h
  after_call-Timed (call_remove_urr seid ie) g h = remove_urr_with-Timed g seid ie.urr_id h

  after_calls-Timed :
      (cs : List Call) (g : Gtp5g K H)
      → Timed g.perio_events
      → Timed (after_calls cs g).perio_events
  after_calls-Timed [] g h = h
  after_calls-Timed (c ∷ cs) g h = after_calls-Timed cs (after_call c g) (after_call-Timed c g h)

  -- Whatever rules the control plane creates, updates and removes, and whatever the kernel answers,
  -- from a forwarder that has asked for no timer yet: the server of periodic reports handles all the
  -- events that the forwarder puts on its channel, and no period of 0 makes it panic.
  pub after_calls-Served :
      (query : PerioGroup → Option (Assoc ℕ (List UsaReport))) (s : PerioServer) (cs : List Call)
      (g : Gtp5g K H)
      → g.perio_events ≡ []
      → Served query (after_calls cs g).perio_events s
  after_calls-Served query s cs g e =
      serve_all-Served query (after_calls cs g).perio_events s
        (after_calls-Timed cs g (subst Timed (sym e) tt))
