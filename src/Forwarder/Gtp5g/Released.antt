-- ===== src/Forwarder/Gtp5g/Released.antt =====
-- internal/forwarder/gtp5g.go: what `applyAction` does with the packets that wait for a FAR's PDRs.
use mathlib.Core.Path.{ap₂, fun_ext, subst}
use go_upf.Base.{
  ℕ, zero, suc, ◌<◌, ◌≡◌, refl, ◌∙◌, true, ◌&&◌, ◌||◌, Option, none, some, List, [], ◌∷◌, length,
  member, nat_pair_beq, Bytes, arith, ◌==◌, if◌then◌else◌, Bool-cases, inl, inr,
}
use go_upf.Report.{act_drop, act_forw, act_buff}
use go_upf.Forwarder.Gtp5g.Kernel.{NlFar, Gtp5gnl, Handler, HandlerLaws, Gtp5g}
use go_upf.Forwarder.Gtp5g.Apply.{
  write_packet, pdr_qfi, pop_loop, pop_all, drop_pdrs, forward_pdr, forward_pdrs, apply_far,
  apply_action,
}

abbrev pub use_all : {K : Type 0} → (Bytes → K → K) → List Bytes → K → K
use_all use_pkt [] k = k
use_all use_pkt (p ∷ ps) k = use_all use_pkt ps (use_pkt p k)

module _ {K H : Type 0} (nl : Gtp5gnl K) (hd : Handler H) where
  -- The kernel is `k'`, and of the queues of `h` that of one PDR is empty.
  abbrev Emptied : ℕ → ℕ → K → H → K × H → Type 0
  Emptied seid pdrid k' h (k1, h1) =
      (k1 ≡ k')
      × ((s j : ℕ)
          → hd.queue h1 s j ≡ (if nat_pair_beq (seid, pdrid) (s, j) then [] else hd.queue h s j))

  module _ (laws : HandlerLaws hd) where
    pop_loop-Emptied :
        (fuel seid pdrid : ℕ) (use_pkt : Bytes → K → K) (ps : List Bytes) (k : K) (h : H)
        → hd.queue h seid pdrid ≡ ps
        → length ps < fuel
        → Emptied seid pdrid
            (use_all use_pkt ps k)
            h
            (pop_loop nl hd fuel seid pdrid use_pkt (k, h))
    unfolding pop_loop
    pop_loop-Emptied zero seid pdrid use_pkt ps k h e l = elim l [ ]
    pop_loop-Emptied (suc fuel) seid pdrid use_pkt [] k h e l =
        rw (laws.empty h seid pdrid e) (refl, λ s j. ground (arith, e))
    pop_loop-Emptied (suc fuel) seid pdrid use_pkt (p ∷ ps) k h e l =
        let (h', f, others) = laws.front h seid pdrid p ps e in
        let mine : hd.queue h' seid pdrid ≡ ps = ground (arith, others seid pdrid) in
        let (done, rest) =
          pop_loop-Emptied fuel seid pdrid use_pkt ps (use_pkt p k) h' mine (omega arith) in
        rw f (done, λ s j. ground (arith, rest s j, others s j))

    pop_all-Emptied :
        (seid pdrid : ℕ) (use_pkt : Bytes → K → K) (k : K) (h : H)
        → Emptied seid pdrid
            (use_all use_pkt (hd.queue h seid pdrid) k)
            h
            (pop_all nl hd seid pdrid use_pkt (k, h))
    unfolding pop_all
    pop_all-Emptied seid pdrid use_pkt k h =
        pop_loop-Emptied (suc (length (hd.queue h seid pdrid))) seid pdrid use_pkt
          (hd.queue h seid pdrid) k h refl (omega arith)

  -- The same of all the PDRs of a list.
  abbrev pub EmptiedAll : ℕ → List ℕ → K → H → K × H → Type 0
  EmptiedAll seid ps k' h x =
      (x.0 ≡ k')
      × ((s j : ℕ) → hd.queue x.1 s j ≡ (if (seid == s) && member j ps then [] else hd.queue h s j))

  use_all_nothing : (ps : List Bytes) (k : K) → use_all (λ pkt k'. k') ps k ≡ k
  use_all_nothing [] k = refl
  use_all_nothing (p ∷ ps) k = use_all_nothing ps k

  -- What is sent: for each PDR the packets that wait for it, in their order, with the QFI of its
  -- first QER that has one.
  abbrev pub sent_pdr : NlFar → ℕ → Option (List ℕ) → List Bytes → K → K
  sent_pdr far seid none packets k = k
  sent_pdr far seid (some qer_ids) packets k =
      let qfi = pdr_qfi nl hd seid qer_ids k in
      use_all (λ pkt k'. (write_packet nl hd far qfi pkt k').1) packets k

  -- What waits after a PDR: where the kernel gave it, nothing for it.
  abbrev pub left_after : Option (List ℕ) → ℕ → (ℕ → List Bytes) → ℕ → List Bytes
  left_after none p packets q = packets q
  left_after (some qer_ids) p packets q = if p == q then [] else packets q

  abbrev pub sent_all : NlFar → ℕ → List ℕ → (ℕ → List Bytes) → K → K
  sent_all far seid [] packets k = k
  sent_all far seid (p ∷ ps) packets k =
      let o = nl.get_pdr_oid (record { seid = seid; id = p }) k in
      sent_all far seid ps (left_after o p packets) (sent_pdr far seid o (packets p) k)

  abbrev pub with_given : Option (List ℕ) → ℕ → List ℕ → List ℕ
  with_given none p ps = ps
  with_given (some qer_ids) p ps = p ∷ ps

  -- The PDRs that the kernel gives, each asked for when what waited for those before it is sent.
  abbrev pub given_pdrs : NlFar → ℕ → List ℕ → (ℕ → List Bytes) → K → List ℕ
  given_pdrs far seid [] packets k = []
  given_pdrs far seid (p ∷ ps) packets k =
      let o = nl.get_pdr_oid (record { seid = seid; id = p }) k in
      with_given o p
        (given_pdrs far seid ps (left_after o p packets) (sent_pdr far seid o (packets p) k))

  -- One PDR is emptied, and then those of a list.
  EmptiedAll-cons :
      (far : NlFar) (seid p : ℕ) (ps : List ℕ) (k' : K) (h : H) (x y : K × H)
      → Emptied seid p k' h x
      → EmptiedAll seid
          (given_pdrs far seid ps (hd.queue x.1 seid) x.0)
          (sent_all far seid ps (hd.queue x.1 seid) x.0)
          x.1
          y
      → EmptiedAll seid
          (p ∷ given_pdrs far seid ps (λ q. if p == q then [] else hd.queue h seid q) k')
          (sent_all far seid ps (λ q. if p == q then [] else hd.queue h seid q) k')
          h
          y
  EmptiedAll-cons far seid p ps k' h x y (e, others) (done, rest) =
      let waits : hd.queue x.1 seid ≡ (λ q. if p == q then [] else hd.queue h seid q) =
        fun_ext (λ q. ground (arith, others seid q)) in
      let same = ap₂ (λ packets k. given_pdrs far seid ps packets k) waits e in
      (
        done ∙ ap₂ (λ packets k. sent_all far seid ps packets k) waits e,
        λ s j.
            subst
              (λ gs.
                hd.queue y.1 s j
                ≡ (if (seid == s) && member j (p ∷ gs) then [] else hd.queue h s j))
              same (ground (arith, others s j, rest s j)),
      )

  module _ (laws : HandlerLaws hd) where
    drop_pdrs-EmptiedAll :
        (seid : ℕ) (ps : List ℕ) (k : K) (h : H)
        → EmptiedAll seid ps k h (drop_pdrs nl hd seid ps (k, h))
    unfolding drop_pdrs
    drop_pdrs-EmptiedAll seid [] k h = (refl, λ s j. ground arith)
    drop_pdrs-EmptiedAll seid (p ∷ ps) k h =
        let (k1, h1) = pop_all nl hd seid p (λ pkt k'. k') (k, h) in
        let (e, others) = pop_all-Emptied laws seid p (λ pkt k'. k') k h in
        let (e', others') = drop_pdrs-EmptiedAll seid ps k1 h1 in
        (
          e' ∙ (e ∙ use_all_nothing (hd.queue h seid p) k),
          λ s j. ground (arith, others s j, others' s j),
        )

    forward_pdrs-step :
        (far : NlFar) (seid p : ℕ) (ps : List ℕ) (o : Option (List ℕ)) (k : K) (h : H)
        → ((k1 : K) (h1 : H)
            → EmptiedAll seid
                (given_pdrs far seid ps (hd.queue h1 seid) k1)
                (sent_all far seid ps (hd.queue h1 seid) k1)
                h1
                (forward_pdrs nl hd far seid ps (k1, h1)))
        → EmptiedAll seid
            (with_given o p (
              given_pdrs far seid ps
                (left_after o p (hd.queue h seid))
                (sent_pdr far seid o (hd.queue h seid p) k)))
            (sent_all far seid ps
              (left_after o p (hd.queue h seid))
              (sent_pdr far seid o (hd.queue h seid p) k))
            h
            (forward_pdrs nl hd far seid ps (forward_pdr nl hd far seid p o (k, h)))
    forward_pdrs-step far seid p ps none k h f = f k h
    forward_pdrs-step far seid p ps (some q) k h f =
        let use_pkt : Bytes → K → K =
          λ pkt k'. (write_packet nl hd far (pdr_qfi nl hd seid q k) pkt k').1 in
        let x = pop_all nl hd seid p use_pkt (k, h) in
        EmptiedAll-cons far seid p ps (use_all use_pkt (hd.queue h seid p) k) h x _
          (pop_all-Emptied laws seid p use_pkt k h) (f x.0 x.1)

    forward_pdrs-EmptiedAll :
        (far : NlFar) (seid : ℕ) (ps : List ℕ) (k : K) (h : H)
        → EmptiedAll seid
            (given_pdrs far seid ps (hd.queue h seid) k)
            (sent_all far seid ps (hd.queue h seid) k)
            h
            (forward_pdrs nl hd far seid ps (k, h))
    unfolding forward_pdrs
    forward_pdrs-EmptiedAll far seid [] k h = (refl, λ s j. ground arith)
    forward_pdrs-EmptiedAll far seid (p ∷ ps) k h =
        forward_pdrs-step far seid p ps (nl.get_pdr_oid (record { seid = seid; id = p }) k) k h
          (forward_pdrs-EmptiedAll far seid ps)

    -- The PDRs of the FAR whose packets an action takes away, and the kernel with what is sent.
    abbrev pub released_pdrs : ℕ → ℕ → NlFar → K → H → List ℕ
    released_pdrs seid action far k h =
        if act_drop action then far.pdr_ids else given_pdrs far seid far.pdr_ids (hd.queue h seid) k

    abbrev pub released_kernel : ℕ → ℕ → NlFar → K → H → K
    released_kernel seid action far k h =
        if act_drop action then k else sent_all far seid far.pdr_ids (hd.queue h seid) k

    apply_far-Released :
        (seid action : ℕ) (o : Option NlFar) (far : NlFar) (k : K) (h : H)
        → o ≡ some far
        → act_buff far.action ≡ true
        → act_drop action || act_forw action ≡ true
        → EmptiedAll seid
            (released_pdrs seid action far k h)
            (released_kernel seid action far k h)
            h
            (apply_far nl hd seid action o (k, h))
    apply_far-Released seid action none far k h e buff out = absurd cc
    apply_far-Released seid action (some f) far k h e buff out =
        let same : f ≡ far = cc in
        rw (same, buff)
          (elim (Bool-cases (act_drop action)) [
            | inl dr ↦ rw dr (drop_pdrs-EmptiedAll seid far.pdr_ids k h)
            | inr dr ↦
                let fw : act_forw action ≡ true = ground (arith, dr, out) in
                rw (dr, fw) (forward_pdrs-EmptiedAll far seid far.pdr_ids k h)
          ])

    -- Where the kernel's FAR buffers, and the new action drops or forwards. On DROP no packet waits
    -- afterwards for a PDR of the FAR, and the kernel and the link are untouched. On FORW the PDRs
    -- are asked of the kernel one after the other: what waits for one that it gives goes through
    -- WritePacket, in its order and with the QFI of the first QER that has one, and nothing waits for
    -- it afterwards; one that the kernel does not give is passed over, and its packets stay. Every
    -- other queue is as it was.
    pub apply_action-Released :
        (seid farid action : ℕ) (far : NlFar) (g : Gtp5g K H)
        → nl.get_far_oid (record { seid = seid; id = farid }) g.kernel ≡ some far
        → act_buff far.action ≡ true
        → act_drop action || act_forw action ≡ true
        → EmptiedAll seid
            (released_pdrs seid action far g.kernel g.handler)
            (released_kernel seid action far g.kernel g.handler)
            g.handler
            (
              (apply_action nl hd seid farid action g).kernel,
              (apply_action nl hd seid farid action g).handler,
            )
    unfolding apply_action
    apply_action-Released seid farid action far g =
        apply_far-Released seid action
          (nl.get_far_oid (record { seid = seid; id = farid }) g.kernel) far g.kernel g.handler
