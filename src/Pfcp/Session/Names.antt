-- ===== src/Pfcp/Session/Names.antt =====
-- internal/pfcp/session.go: the identifiers of a session while it gets its rules.
use go_upf.Base.{
  ℕ, ◌≡◌, refl, ◌∙◌, Option, none, some, List, [], ◌∷◌, Option-cases, inl, inr, string_eq, pair_eq,
  nat_eq,
}
use go_upf.Forwarder.{Ie, Driver}
use go_upf.Pfcp.Sess.{Sess, Out, create_pdr, reply}
use go_upf.Pfcp.Sess.Rules.{create_far, create_qer, create_bar, create_urr}
use go_upf.Pfcp.Node.{LocalNode, local_new_sess}
use go_upf.Pfcp.Session.{EstablishmentRequest, optional, each}
use go_upf.Pfcp.Session.Establish.{install}

-- The fields that name a session.
abbrev pub SameName : Sess → Sess → Type 0
SameName s s' = (s'.local_id ≡ s.local_id) × (s'.remote_id ≡ s.remote_id) × (s'.rnode ≡ s.rnode)

SameName-trans : (a b c : Sess) → SameName a b → SameName b c → SameName a c
SameName-trans a b c (p, q, r) (p', q', r') = (p' ∙ p, q' ∙ q, r' ∙ r)

-- A new session has the SEID and the node that it is made with.
pub local_new_sess-names :
    (n : LocalNode) (p r q : ℕ)
    → let s = (local_new_sess n p r q).0 in (s.remote_id ≡ r) × (s.rnode ≡ p)
unfolding local_new_sess
local_new_sess-names n p r q = go n.free
  where
    go :
        (fr : List ℕ)
        → let s = (local_new_sess (record n { free = fr }) p r q).0 in
          (s.remote_id ≡ r) × (s.rnode ≡ p)
    go [] = (refl, refl)
    go (f ∷ fr) = (refl, refl)

module _ {S : Type 0} where
  abbrev KeepsName : {A : Type 0} → (Sess → S → Ie → Out S A) → Type 0
  KeepsName op = (s : Sess) (st : S) (ie : Ie) → SameName s (op s st ie).1

  reply-SameName : {A : Type 0} (s : Sess) (r : Option A × S) → SameName s (reply s r).1
  reply-SameName s (none, st) = (refl, refl, refl)
  reply-SameName s (some a, st) = (refl, refl, refl)

  each-SameName :
      {A : Type 0} (op : Sess → S → Ie → Out S A) (ies : List Ie) (s : Sess) (st : S)
      → KeepsName op
      → SameName s (each op (s, st) ies).0
  each-SameName op [] s st k = (refl, refl, refl)
  each-SameName op (ie ∷ ies) s st k =
      let (_, s', st') = op s st ie in
      SameName-trans s s' (each op (s', st') ies).0 (k s st ie) (each-SameName op ies s' st' k)

  module _ (d : Driver S) where
    create_far-KeepsName : KeepsName (create_far d)
    unfolding create_far
    create_far-KeepsName s st ie = elim (Option-cases ie.far_id) [
      | inl e ↦ rw (e, create_far) (refl, refl, refl)
      | inr (id, e) ↦ rw (e, create_far) (reply-SameName _ (d.create_far st s.local_id ie))
    ]

    create_qer-KeepsName : KeepsName (create_qer d)
    unfolding create_qer
    create_qer-KeepsName s st ie = elim (Option-cases ie.qer_id) [
      | inl e ↦ rw (e, create_qer) (refl, refl, refl)
      | inr (id, e) ↦ rw (e, create_qer) (reply-SameName _ (d.create_qer st s.local_id ie))
    ]

    create_bar-KeepsName : KeepsName (create_bar d)
    unfolding create_bar
    create_bar-KeepsName s st ie = elim (Option-cases ie.bar_id) [
      | inl e ↦ rw (e, create_bar) (refl, refl, refl)
      | inr (id, e) ↦ rw (e, create_bar) (reply-SameName _ (d.create_bar st s.local_id ie))
    ]

    create_urr-KeepsName : KeepsName (create_urr d)
    unfolding create_urr
    create_urr-KeepsName s st ie = elim (Option-cases ie.urr_id) [
      | inl e ↦ rw (e, create_urr) (refl, refl, refl)
      | inr (id, e) ↦ rw (e, create_urr) (reply-SameName _ (d.create_urr st s.local_id ie))
    ]

    create_pdr-KeepsName : KeepsName (create_pdr d)
    unfolding create_pdr
    create_pdr-KeepsName s st ie = elim (Option-cases ie.pdr_children) [
      | inl e ↦ rw (e, create_pdr) (refl, refl, refl)
      | inr (cs, e) ↦ rw (e, create_pdr) (reply-SameName _ (d.create_pdr st s.local_id ie))
    ]

    -- The rules of a request leave the names of the session as they are.
    pub install-SameName :
        (req : EstablishmentRequest) (s : Sess) (st : S) → SameName s (install d req (s, st)).0
    unfolding install
    install-SameName req s st =
        let (s1, st1) = each (create_far d) (s, st) req.create_fars in
        let (s2, st2) = each (create_qer d) (s1, st1) req.create_qers in
        let (s3, st3) = each (create_urr d) (s2, st2) req.create_urrs in
        let (s4, st4) = each (create_bar d) (s3, st3) (optional req.create_bar) in
        SameName-trans s s4 (each (create_pdr d) (s4, st4) req.create_pdrs).0
          (SameName-trans s s3 s4
            (SameName-trans s s2 s3
              (SameName-trans s s1 s2
                (each-SameName (create_far d) req.create_fars s st create_far-KeepsName)
                (each-SameName (create_qer d) req.create_qers s1 st1 create_qer-KeepsName))
              (each-SameName (create_urr d) req.create_urrs s2 st2 create_urr-KeepsName))
            (each-SameName (create_bar d) (optional req.create_bar) s3 st3 create_bar-KeepsName))
          (each-SameName (create_pdr d) req.create_pdrs s4 st4 create_pdr-KeepsName)
