-- ===== src/Userspace/Buffer/Release.antt =====
-- internal/forwarder/userspace/pipeline.go: letting packets go, and the sessions.
use go_upf.Base.{
  Option, none, some, List, [], ◌∷◌, ◌≡◌, refl, ◌∙◌, Bytes, Bool-cases, inl, inr, nat_eq,
}
use go_upf.Report.{act_forw}
use go_upf.Userspace.Rule.{FarRule}
use go_upf.Userspace.Binding.{PdrBinding}
use go_upf.Userspace.State.{Userspace, publish_outcome}
use go_upf.Userspace.Forward.{PacketOutcome, forward_buffered_payload}
use go_upf.Userspace.Buffer.{forward_all, release, sent}

module _ {F : Type 0} where
  sent-sessions : (o : Option PacketOutcome) (u : Userspace F) → (sent o u).sessions ≡ u.sessions
  unfolding publish_outcome
  sent-sessions none u = refl
  sent-sessions (some o) u = refl

  forward_all-sessions :
      (b : PdrBinding) (q : List Bytes) (u : Userspace F)
      → (forward_all b q u).sessions ≡ u.sessions
  unfolding forward_all
  forward_all-sessions b [] u = refl
  forward_all-sessions b (p ∷ ps) u =
      forward_all-sessions b ps (sent (forward_buffered_payload b p) u)
      ∙ sent-sessions (forward_buffered_payload b p) u

  pub release-sessions :
      (next : FarRule) (q : List Bytes) (b : PdrBinding) (u : Userspace F)
      → (release next q b u).sessions ≡ u.sessions
  release-sessions next q b u = elim (Bool-cases (act_forw next.apply_action)) [
    | inl e ↦ rw e (forward_all-sessions b q u)
    | inr e ↦ rw e refl
  ]
