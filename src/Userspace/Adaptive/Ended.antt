-- ===== src/Userspace/Adaptive/Ended.antt =====
-- internal/forwarder/userspace/adaptive_qos.go: a flow that is started and ended again.
use go_upf.Base.{
  ℕ, ◌≡◌, ◌≢◌, refl, sym, ◌∙◌, ◌⊎◌, inl, inr, Option, none, some, List, [], ◌∷◌, Assoc, Bytes,
  bytes_eq, bytes_beq, nat_eq, lookup, insert, delete, lookup-insert, lookup-insert_self,
  lookup-insert_ne, lookup-delete, member, ◌==◌, if◌then◌else◌, arith, Bool-cases,
}
use go_upf.Userspace.Rule.{AdaptiveQerOverride}
use go_upf.Userspace.Adaptive.Decision.{AdaptiveReport, AdaptiveConfig}
use go_upf.Userspace.Adaptive.Flows.{
  AdaptiveFlow, AdaptiveSession, AdaptiveSessions, ended, collect_adaptive_qer_ids,
  resolve_adaptive_session, set_overrides, clear_overrides, started_session, start_adaptive_flow,
  ended_session, end_adaptive_flow,
}

lookup-set_overrides :
    (ids : List ℕ) (o : AdaptiveQerOverride) (m : Assoc ℕ AdaptiveQerOverride) (q : ℕ)
    → lookup q (set_overrides ids o m) ≡ (if member q ids then some o else lookup q m)
lookup-set_overrides [] o m q = refl
lookup-set_overrides (i ∷ ids) o m q =
    ground (arith, lookup-set_overrides ids o (insert i o m) q, lookup-insert i q o m)

lookup-clear_overrides :
    (ids : List ℕ) (m : Assoc ℕ AdaptiveQerOverride) (q : ℕ)
    → lookup q (clear_overrides ids m) ≡ (if member q ids then none else lookup q m)
lookup-clear_overrides [] m q = refl
lookup-clear_overrides (i ∷ ids) m q =
    ground (arith, lookup-clear_overrides ids (delete i m) q, lookup-delete i q m)

lookup-clear_set :
    (ids : List ℕ) (o : AdaptiveQerOverride) (m : Assoc ℕ AdaptiveQerOverride) (q : ℕ)
    → lookup q (clear_overrides ids (set_overrides ids o m))
      ≡ (if member q ids then none else lookup q m)
lookup-clear_set ids o m q =
    ground
      (arith, lookup-clear_overrides ids (set_overrides ids o m) q, lookup-set_overrides ids o m q)

lookup-delete-insert :
    (k j : Bytes) (v : AdaptiveFlow) (m : Assoc Bytes AdaptiveFlow)
    → lookup j (delete k (insert k v m)) ≡ (if bytes_beq k j then none else lookup j m)
lookup-delete-insert k j v m =
    lookup-delete k j (insert k v m) ∙ (elim (Bool-cases (bytes_beq k j)) [
      | inl e ↦ rw e refl
      | inr e ↦ rw e (rw e at (lookup-insert k j v m))
    ])

module _ {F : Type 0} where
  -- No other session has the flow.
  abbrev pub OnlyIn : Bytes → ℕ → AdaptiveSessions F → Type 0
  OnlyIn id seid [] = Unit {0}
  OnlyIn id seid ((k, s) ∷ m) = ((k ≡ seid) ⊎ (lookup id s.flows ≡ none)) × OnlyIn id seid m

  end-insert :
      (id : Bytes) (seid : ℕ) (s : AdaptiveSession F) (flow : AdaptiveFlow) (m : AdaptiveSessions F)
      → lookup id s.flows ≡ some flow
      → OnlyIn id seid m
      → end_adaptive_flow id (insert seid s m) ≡ (
        record { reason = ended; profile_id = flow.selected_profile.profile_id },
        insert seid (ended_session id flow s) m,
      )
  unfolding end_adaptive_flow
  end-insert id seid s flow [] e h = rw e refl
  end-insert id seid s flow ((k, t) ∷ m) e (h, hs) = elim (Bool-cases (k == seid)) [
    | inl q ↦ rw (q, e) refl
    | inr q ↦
        let no : lookup id t.flows ≡ none = ground (arith, h, q) in
        rw (q, no, end-insert id seid s flow m e hs) refl
  ]

  -- What the session is after a flow was started in it and ended.
  pub record Restored (id : Bytes) (s s' : AdaptiveSession F) : Type 0 where
    pub overrides :
        (q : ℕ)
        → lookup q s'.state.adaptive_qer ≡ (
            if member q (collect_adaptive_qer_ids s.state)
            then none
            else lookup q s.state.adaptive_qer)
    pub flows :
        (f : Bytes) → lookup f s'.flows ≡ (if bytes_beq id f then none else lookup f s.flows)

  -- The session of `seid` is restored, and every other one is as it was.
  pub record Over (id : Bytes) (seid : ℕ) (s : AdaptiveSession F) (m m' : AdaptiveSessions F)
      : Type 0 where
    pub session : (s' : AdaptiveSession F) × (lookup seid m' ≡ some s') × Restored id s s'
    pub others : (k : ℕ) → k ≢ seid → lookup k m' ≡ lookup k m

  -- A report that starts a flow in the session that is found for it, and the end of this flow, where
  -- no other session has a flow of that ID. The end finds the flow, the session no longer has it and
  -- keeps its other flows, no override is left on any QER that the flow was applied to, also where
  -- another flow had set one before, the other overrides are as they were, and so is every other
  -- session.
  pub end_adaptive_flow-start_adaptive_flow :
      (cfg : Option AdaptiveConfig) (ip_text : Bytes → Bytes) (r : AdaptiveReport) (now : ℕ)
      (m : AdaptiveSessions F) (seid : ℕ) (s : AdaptiveSession F)
      → resolve_adaptive_session ip_text r m ≡ some (seid, s)
      → OnlyIn r.flow_id seid m
      → ((end_adaptive_flow r.flow_id (start_adaptive_flow cfg ip_text r now m).1).0.reason ≡ ended)
        × Over r.flow_id seid s m
            (end_adaptive_flow r.flow_id (start_adaptive_flow cfg ip_text r now m).1).1
  unfolding start_adaptive_flow
  end_adaptive_flow-start_adaptive_flow cfg ip_text r now m seid s e only =
      let s1 = started_session cfg ip_text r now s in
      let found : lookup r.flow_id s1.flows ≡ some _ = lookup-insert_self r.flow_id _ s.flows in
      rw (e, end-insert r.flow_id seid s1 _ m found only)
        (
          refl,
          record {
            session = (
              _,
              lookup-insert_self seid _ m,
              record {
                overrides = λ q.
                    lookup-clear_set (collect_adaptive_qer_ids s.state) _ s.state.adaptive_qer q;
                flows = λ f. lookup-delete-insert r.flow_id f _ s.flows;
              },
            );
            others = λ k d. lookup-insert_ne seid k _ m (λ h. d (sym h));
          },
        )
