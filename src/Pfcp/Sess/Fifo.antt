-- ===== src/Pfcp/Sess/Fifo.antt =====
-- internal/pfcp/node.go: Push and Pop, and the queue that they make.
use go_upf.Base.{
  ℕ, zero, suc, ◌≤◌, ◌≡◌, refl, sym, ap, ◌∙◌, Option, none, some, List, [], ◌∷◌, ◌++◌, arith,
  length, length-append, take, insert, lookup-insert, lookup-insert_self, ltb, ◌==◌, if◌then◌else◌,
  Bool-cases, inl, inr, nat_eq, subst,
}
use mathlib.Core.List.{append_assoc, append-nil}
use go_upf.Pfcp.Sess.{Sess}
use go_upf.Pfcp.Sess.Queue.{channel, push, pop}

abbrev pub push_all : Sess → ℕ → List (List ℕ) → Sess
push_all s id [] = s
push_all s id (p ∷ ps) = push_all (push s id p) id ps

-- `n` calls of `Pop`, with what they return.
abbrev pub pops : ℕ → Sess → ℕ → List (Option (List ℕ)) × Sess
pops zero s id = ([], s)
pops (suc n) s id = let (o, s') = pop s id in let (os, s'') = pops n s' id in (o ∷ os, s'')

abbrev pub somes : List (List ℕ) → List (Option (List ℕ))
somes [] = []
somes (p ∷ ps) = some p ∷ somes ps

channel-insert :
    (s : Sess) (id j : ℕ) (q : List (List ℕ))
    → channel (record s { q = insert id q s.q }) j ≡ (if id == j then q else channel s j)
channel-insert s id j q = ground (arith, lookup-insert id j q s.q)

channel-push :
    (s : Sess) (id : ℕ) (p : List ℕ)
    → channel (push s id p) id
      ≡ (if ltb (length (channel s id)) s.qlen then channel s id ++ p ∷ [] else channel s id)
unfolding push
channel-push s id p = rw (lookup-insert_self id _ s.q, channel) refl

qlen-push : (s : Sess) (id : ℕ) (p : List ℕ) → (push s id p).qlen ≡ s.qlen
unfolding push
qlen-push s id p = refl

take-append_full : (n : ℕ) (xs ys : List (List ℕ)) → n ≤ length xs → take n (xs ++ ys) ≡ take n xs
take-append_full zero xs ys h = refl
take-append_full (suc n) [] ys h = absurd (omega arith)
take-append_full (suc n) (x ∷ xs) ys h = ap (◌∷◌ x) (take-append_full n xs ys (omega arith))

take_all : (n : ℕ) (xs : List (List ℕ)) → length xs ≤ n → take n xs ≡ xs
take_all zero [] h = refl
take_all zero (x ∷ xs) h = absurd (omega arith)
take_all (suc n) [] h = refl
take_all (suc n) (x ∷ xs) h = ap (◌∷◌ x) (take_all n xs (omega arith))

-- Pushed one after the other onto a channel within its capacity, the packets that the channel
-- holds at the end are the first `qlen` of those it held and those that came.
pub channel-push_all :
    (s : Sess) (id : ℕ) (ps : List (List ℕ))
    → length (channel s id) ≤ s.qlen
    → channel (push_all s id ps) id ≡ take s.qlen (channel s id ++ ps)
channel-push_all s id [] h = sym (rw (append-nil (channel s id)) (take_all s.qlen (channel s id) h))
channel-push_all s id (p ∷ ps) h = elim (Bool-cases (ltb (length (channel s id)) s.qlen)) [
  | inl room ↦
      let now : channel (push s id p) id ≡ channel s id ++ p ∷ [] =
        ground (arith, channel-push s id p, room) in
      channel-push_all (push s id p) id ps
        (ground (arith, now, length-append (channel s id) (p ∷ []), qlen-push s id p, room))
      ∙ rw (qlen-push s id p, now) (rw (append_assoc (channel s id) (p ∷ []) ps))
  | inr full ↦
      let now : channel (push s id p) id ≡ channel s id =
        ground (arith, channel-push s id p, full) in
      channel-push_all (push s id p) id ps (ground (arith, now, qlen-push s id p))
      ∙ rw (qlen-push s id p, now)
          (take-append_full s.qlen (channel s id) ps (ground (arith, full))
            ∙ sym (take-append_full s.qlen (channel s id) (p ∷ ps) (ground (arith, full))))
]

pop-channel :
    (s : Sess) (id : ℕ) (p : List ℕ) (ps : List (List ℕ))
    → channel s id ≡ p ∷ ps
    → pop s id ≡ (some p, record s { q = insert id ps s.q })
unfolding pop
pop-channel s id p ps e = rw e refl

-- The packets that a channel holds are popped in order, and then there is none.
pub pops-channel :
    (ps : List (List ℕ)) (s : Sess) (id : ℕ)
    → channel s id ≡ ps
    → ((pops (length ps) s id).0 ≡ somes ps) × ((pop (pops (length ps) s id).1 id).0 ≡ none)
pops-channel [] s id e = (refl, unfold pop in (rw e refl))
pops-channel (p ∷ ps) s id e =
    let rest : Sess = record s { q = insert id ps s.q } in
    let same : channel rest id ≡ ps = rw (lookup-insert_self id ps s.q, channel) refl in
    let (os, end) = pops-channel ps rest id same in
    subst
      (λ (r : Option (List ℕ) × Sess).
        (r.0 ∷ (pops (length ps) r.1 id).0 ≡ somes (p ∷ ps))
        × ((pop (pops (length ps) r.1 id).1 id).0 ≡ none))
      (sym (pop-channel s id p ps e)) (ap (◌∷◌ (some p)) os, end)
