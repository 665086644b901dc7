-- ===== src/Userspace/Run/Sessions.antt =====
-- internal/forwarder/userspace/driver.go: sessions that are not empty.
use go_upf.Base.{
  ℕ, Bool, true, false, List, [], ◌∷◌, ◌≡◌, refl, ◌∙◌, arith, Assoc, insert, delete, length, ◌==◌,
  if◌then◌else◌, Bool-cases, inl, inr, nat_eq,
}
use go_upf.Report.{UsaReport}
use go_upf.Userspace.Rule.{SessionState, PdrRule, FarRule, QerRule, UrrRule, BarRule}
use go_upf.Userspace.State.{
  Userspace, is_empty, publish_snapshot, cancel_pending_ddn, delete_session_if_empty,
}
use go_upf.Userspace.Buffer.{uses_far}
use go_upf.Userspace.Driver.{put, take_out, with_urr, cancel_of_far}

pub length-insert_nonzero :
    {V : Type 0} (k : ℕ) (v : V) (m : Assoc ℕ V) → (length (insert k v m) == 0) ≡ false
length-insert_nonzero k v [] = refl
length-insert_nonzero k v ((j, w) ∷ m) = ground arith

delete-insert : {V : Type 0} (k : ℕ) (v : V) (m : Assoc ℕ V) → delete k (insert k v m) ≡ delete k m
delete-insert k v [] = ground arith
delete-insert k v ((j, w) ∷ m) = ground (arith, delete-insert k v m)

module _ {F : Type 0} where
  -- Every session that is kept has a rule, a report or a waiting packet.
  abbrev pub AllLive : Assoc ℕ (SessionState F) → Type 0
  AllLive [] = Unit {0}
  AllLive ((seid, s) ∷ m) = (is_empty s ≡ false) × AllLive m

  pub insert-AllLive :
      (k : ℕ) (s : SessionState F) (m : Assoc ℕ (SessionState F))
      → is_empty s ≡ false
      → AllLive m
      → AllLive (insert k s m)
  insert-AllLive k s [] h l = (h, tt)
  insert-AllLive k s ((j, t) ∷ m) h (x, l) = elim (Bool-cases (j == k)) [
    | inl e ↦ rw e (h, l)
    | inr e ↦ rw e (x, insert-AllLive k s m h l)
  ]

  delete-AllLive : (k : ℕ) (m : Assoc ℕ (SessionState F)) → AllLive m → AllLive (delete k m)
  delete-AllLive k [] l = tt
  delete-AllLive k ((j, t) ∷ m) (x, l) = elim (Bool-cases (j == k)) [
    | inl e ↦ rw e (delete-AllLive k m l)
    | inr e ↦ rw e (x, delete-AllLive k m l)
  ]

  pub put-AllLive :
      (seid : ℕ) (s : SessionState F) (u : Userspace F)
      → is_empty s ≡ false
      → AllLive u.sessions
      → AllLive (put seid s u).sessions
  unfolding publish_snapshot
  put-AllLive seid s u h l = insert-AllLive seid s u.sessions h l

  pub take_out-AllLive :
      (seid : ℕ) (s : SessionState F) (u : Userspace F)
      → AllLive u.sessions
      → AllLive (take_out seid s u).sessions
  unfolding publish_snapshot delete_session_if_empty
  take_out-AllLive seid s u l = elim (Bool-cases (is_empty s)) [
    | inl e ↦ rw e (rw (delete-insert seid s u.sessions) (delete-AllLive seid u.sessions l))
    | inr e ↦ rw e (insert-AllLive seid s u.sessions e l)
  ]

  pub fars_live : (s : SessionState F) → (length s.fars == 0) ≡ false → is_empty s ≡ false
  unfolding is_empty
  fars_live s h = ground (arith, h)

  -- A session that a rule was put into is not empty.
  pub with_pdr_live :
      (s : SessionState F) (id : ℕ) (r : PdrRule)
      → is_empty (record s { pdrs = insert id r s.pdrs }) ≡ false
  unfolding is_empty
  with_pdr_live s id r = ground (arith, length-insert_nonzero id r s.pdrs)

  pub with_far_live :
      (s : SessionState F) (id : ℕ) (r : FarRule)
      → is_empty (record s { fars = insert id r s.fars }) ≡ false
  unfolding is_empty
  with_far_live s id r = ground (arith, length-insert_nonzero id r s.fars)

  pub with_qer_live :
      (s : SessionState F) (id : ℕ) (r : QerRule)
      → is_empty (record s { qers = insert id r s.qers }) ≡ false
  unfolding is_empty
  with_qer_live s id r = ground (arith, length-insert_nonzero id r s.qers)

  pub with_urr_live :
      (now : ℕ) (s : SessionState F) (r : UrrRule) → is_empty (with_urr now r s) ≡ false
  unfolding is_empty
  with_urr_live now s r = ground (arith, length-insert_nonzero r.id r s.urrs)

  pub with_bar_live :
      (s : SessionState F) (id : ℕ) (r : BarRule)
      → is_empty (record s { bars = insert id r s.bars }) ≡ false
  unfolding is_empty
  with_bar_live s id r = ground (arith, length-insert_nonzero id r s.bars)

  pub with_reports_live :
      (s : SessionState F) (id : ℕ) (rs : List UsaReport)
      → is_empty (record s { urr_reports = insert id rs s.urr_reports }) ≡ false
  unfolding is_empty
  with_reports_live s id rs = ground (arith, length-insert_nonzero id rs s.urr_reports)

  pub cancel_of_far-sessions :
      (seid id : ℕ) (ps : Assoc ℕ PdrRule) (u : Userspace F)
      → (cancel_of_far seid id ps u).sessions ≡ u.sessions
  unfolding cancel_of_far cancel_pending_ddn
  cancel_of_far-sessions seid id [] u = refl
  cancel_of_far-sessions seid id ((i, p) ∷ ps) u =
      cancel_of_far-sessions seid id ps
        (if uses_far id p then cancel_pending_ddn seid p.id u else u)
      ∙ same (uses_far id p)
    where
      same : (b : Bool) → (if b then cancel_pending_ddn seid p.id u else u).sessions ≡ u.sessions
      same true = refl
      same false = refl
