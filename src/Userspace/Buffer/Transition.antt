-- ===== src/Userspace/Buffer/Transition.antt =====
-- internal/forwarder/userspace/pipeline.go: what becomes of the packets of a PDR when its FAR changes.
use go_upf.Base.{
  ℕ, false, Option, none, some, List, [], ◌∷◌, ◌++◌, ◌≡◌, refl, sym, ◌∙◌, length, lookup, delete,
  lookup-insert_self, lookup-delete_self, ◌==◌, if◌then◌else◌, Bool-cases, inl, inr, nat_eq,
  nat_pair_eq, Bytes,
}
use mathlib.Core.List.{append-nil, append_assoc}
use go_upf.Report.{act_forw}
use go_upf.Userspace.Rule.{PdrRule, FarRule, SessionState}
use go_upf.Userspace.Binding.{PdrBinding}
use go_upf.Userspace.Forward.{PacketOutcome, forward_buffered_payload}
use go_upf.Userspace.State.{Userspace, publish_outcome, cancel_pending_ddn}
use go_upf.Userspace.Buffer.Release.{release-sessions}
use go_upf.Userspace.Buffer.{
  buffer_at, transition_binding, forward_all, release, release_pdr, without_buffer, sent,
}

abbrev if_sent : Option PacketOutcome → List PacketOutcome → List PacketOutcome
if_sent none os = os
if_sent (some o) os = o ∷ os

-- What is sent for the packets, in their order; one that cannot be encoded is left out.
abbrev pub outcomes_of : PdrBinding → List Bytes → List PacketOutcome
outcomes_of b [] = []
outcomes_of b (p ∷ ps) = if_sent (forward_buffered_payload b p) (outcomes_of b ps)

-- The packets that the PDR's FAR lets go.
abbrev pub let_go : FarRule → PdrBinding → List Bytes → List PacketOutcome
let_go next b q = if act_forw next.apply_action then outcomes_of b q else []

module _ {F : Type 0} where
  sent-egress :
      (o : Option PacketOutcome) (os : List PacketOutcome) (u : Userspace F)
      → (sent o u).egress ++ os ≡ u.egress ++ if_sent o os
  unfolding publish_outcome
  sent-egress none os u = refl
  sent-egress (some o) os u = append_assoc u.egress (o ∷ []) os

  forward_all-egress :
      (b : PdrBinding) (ps : List Bytes) (u : Userspace F)
      → (forward_all b ps u).egress ≡ u.egress ++ outcomes_of b ps
  unfolding forward_all
  forward_all-egress b [] u = sym (append-nil u.egress)
  forward_all-egress b (p ∷ ps) u =
      forward_all-egress b ps (sent (forward_buffered_payload b p) u)
      ∙ sent-egress (forward_buffered_payload b p) (outcomes_of b ps) u

  sent-pending :
      (o : Option PacketOutcome) (u : Userspace F) → (sent o u).pending_ddn ≡ u.pending_ddn
  unfolding publish_outcome
  sent-pending none u = refl
  sent-pending (some o) u = refl

  forward_all-pending :
      (b : PdrBinding) (ps : List Bytes) (u : Userspace F)
      → (forward_all b ps u).pending_ddn ≡ u.pending_ddn
  unfolding forward_all
  forward_all-pending b [] u = refl
  forward_all-pending b (p ∷ ps) u =
      forward_all-pending b ps (sent (forward_buffered_payload b p) u)
      ∙ sent-pending (forward_buffered_payload b p) u

  -- A PDR with waiting packets, whose FAR buffered and now says `next`, and for which a binding is
  -- found: nothing panics, the packets are sent as that binding forwards them, all of them and in
  -- their order, after what was sent before, if `next` has FORW, and none of them is if it has not,
  -- and either way the queue of the PDR and its pending notification are gone.
  pub release_pdr_lem :
      (seid : ℕ) (next : FarRule) (p : PdrRule) (s : SessionState F) (u : Userspace F)
      → (b : PdrBinding) → (length (buffer_at p.id s.buffers) == 0) ≡ false
      → transition_binding seid p (without_buffer seid p.id s u) ≡ some b
      → (v : Userspace F) × (release_pdr seid next p s u ≡ some v)
        × (v.egress ≡ u.egress ++ let_go next b (buffer_at p.id s.buffers))
        × (lookup seid v.sessions ≡ some (record s { buffers = delete p.id s.buffers }))
        × (lookup (seid, p.id) v.pending_ddn ≡ none)
  unfolding cancel_pending_ddn
  release_pdr_lem seid next p s u b h e = (
    release next q b w,
    rw (release_pdr, h, e) refl,
    elim (Bool-cases (act_forw next.apply_action)) [
      | inl f ↦ rw f (forward_all-egress b q w)
      | inr f ↦ rw f (sym (append-nil u.egress))
    ],
    rw (release-sessions next q b w) (lookup-insert_self seid _ u.sessions),
    elim (Bool-cases (act_forw next.apply_action)) [
      | inl f ↦
          rw f (rw (forward_all-pending b q w) (lookup-delete_self (seid, p.id) u.pending_ddn))
      | inr f ↦ rw f (lookup-delete_self (seid, p.id) u.pending_ddn)
    ],
  )
    where
      q : List Bytes
      q = buffer_at p.id s.buffers

      w : Userspace F
      w = without_buffer seid p.id s u
