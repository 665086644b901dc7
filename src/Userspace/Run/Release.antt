-- ===== src/Userspace/Run/Release.antt =====
-- internal/forwarder/userspace/pipeline.go: letting packets go, and what the session keeps.
use go_upf.Base.{
  ℕ, true, false, Option, none, some, [], ◌∷◌, ◌≡◌, refl, sym, subst, Assoc, lookup, insert, delete,
  lookup-insert_self, length, ◌==◌, Bool-cases, inl, inr, nat_eq,
}
use go_upf.Userspace.Rule.{SessionState, PdrRule, FarRule}
use go_upf.Userspace.Binding.{PdrBinding}
use go_upf.Userspace.State.{Userspace, cancel_pending_ddn}
use go_upf.Userspace.Buffer.Release.{release-sessions}
use go_upf.Userspace.Buffer.{
  release_pdr, release_pdrs, transition_binding, buffer_at, uses_far, release, without_buffer,
}
use go_upf.Userspace.Run.Sessions.{insert-AllLive, fars_live, AllLive}

module _ {F : Type 0} where
  -- The session under the SEID, if any, has a FAR.
  abbrev HasFars : Option (SessionState F) → Type 0
  HasFars none = Unit {0}
  HasFars (some s) = (length s.fars == 0) ≡ false

  -- The sessions are live, and the one that is worked on has a FAR.
  abbrev pub Releasing : ℕ → Assoc ℕ (SessionState F) → Type 0
  Releasing seid m = AllLive m × HasFars (lookup seid m)

  pub insert-Releasing :
      (seid : ℕ) (s : SessionState F) (m : Assoc ℕ (SessionState F))
      → (length s.fars == 0) ≡ false
      → AllLive m
      → Releasing seid (insert seid s m)
  insert-Releasing seid s m h l = (
    insert-AllLive seid s m (fars_live s h) l,
    subst HasFars (sym (lookup-insert_self seid s m)) h,
  )

  -- Of a change that may panic, the state where it does not.
  abbrev pub StaysReleasing : ℕ → Option (Userspace F) → Type 0
  StaysReleasing seid none = Unit {0}
  StaysReleasing seid (some u) = Releasing seid u.sessions

  release_pdr-Releasing :
      (seid : ℕ) (next : FarRule) (p : PdrRule) (s : SessionState F) (u : Userspace F)
      → (length s.fars == 0) ≡ false
      → Releasing seid u.sessions
      → StaysReleasing seid (release_pdr seid next p s u)
  unfolding cancel_pending_ddn
  release_pdr-Releasing seid next p s u h l =
      elim (Bool-cases (length (buffer_at p.id s.buffers) == 0)) [
        | inl e ↦ rw e l
        | inr e ↦ rw e (bound (transition_binding seid p v))
      ]
    where
      v : Userspace F
      v = without_buffer seid p.id s u

      bound :
          (o : Option PdrBinding)
          → StaysReleasing seid (elim o as (λ x. Option (Userspace F)) [
            | none ↦ none
            | some b ↦ some (release next (buffer_at p.id s.buffers) b v)
          ])
      bound none = tt
      bound (some b) =
          subst (Releasing seid) (sym (release-sessions next (buffer_at p.id s.buffers) b v))
            (insert-Releasing seid (record s { buffers = delete p.id s.buffers }) u.sessions h l.0)

  pub release_pdrs-Releasing :
      (seid : ℕ) (next : FarRule) (ps : Assoc ℕ PdrRule) (u : Userspace F)
      → Releasing seid u.sessions
      → StaysReleasing seid (release_pdrs seid next ps u)
  unfolding release_pdrs
  release_pdrs-Releasing seid next [] u l = l
  release_pdrs-Releasing seid next ((id, p) ∷ ps) u l =
      stored (λ v k. release_pdrs-Releasing seid next ps v k) (lookup seid u.sessions) refl
    where
      Rest : Type 0
      Rest =
          (v : Userspace F)
          → Releasing seid v.sessions
          → StaysReleasing seid (release_pdrs seid next ps v)

      found :
          (rest : Rest) (s : SessionState F) (o : Option (Userspace F))
          → lookup seid u.sessions ≡ some s
          → uses_far next.id p ≡ true
          → release_pdr seid next p s u ≡ o
          → StaysReleasing seid o
          → StaysReleasing seid (release_pdrs seid next ((id, p) ∷ ps) u)
      found rest s none e f g k = rw (release_pdrs, e, f, g) tt
      found rest s (some v) e f g k = rw (release_pdrs, e, f, g) (rest v k)

      stored :
          (rest : Rest) (o : Option (SessionState F))
          → lookup seid u.sessions ≡ o
          → StaysReleasing seid (release_pdrs seid next ((id, p) ∷ ps) u)
      stored rest none e = rw (release_pdrs, e) l
      stored rest (some s) e = elim (Bool-cases (uses_far next.id p)) [
        | inl f ↦
            found rest s (release_pdr seid next p s u) e f refl
              (release_pdr-Releasing seid next p s u (subst HasFars e l.1) l)
        | inr f ↦ rw (release_pdrs, e, f) (rest u l)
      ]
