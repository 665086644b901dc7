-- ===== src/Perio/Tidy.antt =====
-- internal/forwarder/perio/server.go: the groups and their tickers.
use go_upf.Base.{
  ℕ, ◌+◌, Option, none, some, List, [], ◌∷◌, ◌≡◌, ◌≢◌, refl, sym, ◌∙◌, true, false, subst, arith,
  length, member, Assoc, lookup, ◌==◌, Bool-cases, Option-cases, inl, inr, nat_eq,
}
use go_upf.Report.{UsaReport}
use go_upf.Perio.{
  PerioGroup, PerioServer, PerioEvent, perio_add, perio_del, perio_timeout, server_close, ids_of,
  set_add, with_member, without_member, add_urr, del_urr, answered, timeout, serve, is_close,
  serve_all,
}
use go_upf.Perio.Groups.{
  GroupsLive, insert_nonempty, length-insert_new, length-insert_old, set_add_nonempty,
  insert-SetsLive, without_member-SetsLive, insert-GroupsLive, lookup-GroupsLive,
}

abbrev pub IsTidy : PerioServer → Type 0
IsTidy s = GroupsLive s.perio_list × (s.tickers ≡ length s.perio_list)

-- As many tickers stop as groups go.
del_urr_lem :
    (seid urr : ℕ) (gs : Assoc ℕ PerioGroup)
    → GroupsLive gs
    → GroupsLive (del_urr seid urr gs).0
      × (length (del_urr seid urr gs).0 + (del_urr seid urr gs).1 ≡ length gs)
unfolding del_urr
del_urr_lem seid urr [] l = (tt, omega arith)
del_urr_lem seid urr ((period, g) ∷ gs) (n, s, l) =
    let left = without_member seid urr g in
    elim (Bool-cases (member urr (ids_of (lookup seid g)))) [
      | inl e ↦ elim (Bool-cases (length left == 0)) [
        | inl f ↦ rw (del_urr, e, f) (l, omega arith)
        | inr f ↦ rw (del_urr, e, f) ((f, without_member-SetsLive seid urr g s, l), omega arith)
      ]
      | inr e ↦
          let rest = del_urr_lem seid urr gs l in
          rw (del_urr, e) ((n, s, rest.0), omega (arith, rest.1))
    ]

-- Of a round that does not panic, the state after it.
abbrev StaysTidy : Option PerioServer → Type 0
StaysTidy none = Unit {0}
StaysTidy (some s) = IsTidy s

add_urr-StaysTidy :
    (seid urr period : ℕ) (s : PerioServer) → IsTidy s → StaysTidy (add_urr seid urr period s)
unfolding add_urr
add_urr-StaysTidy seid urr period s (l, t) = elim (Option-cases (lookup period s.perio_list)) [
  | inl e ↦ elim (Bool-cases (period == 0)) [
    | inl z ↦ rw (add_urr, e, z) tt
    | inr z ↦
        rw (add_urr, e, z)
          (
            insert-GroupsLive period (with_member seid urr []) s.perio_list
                (insert_nonempty seid (set_add urr []) [])
                (insert-SetsLive seid (set_add urr []) [] (set_add_nonempty urr []) tt) l,
            omega (arith, t, length-insert_new period (with_member seid urr []) s.perio_list e),
          )
  ]
  | inr (g, e) ↦
      rw (add_urr, e)
        (
          insert-GroupsLive period (with_member seid urr g) s.perio_list
              (insert_nonempty seid (set_add urr (ids_of (lookup seid g))) g)
              (insert-SetsLive seid _ g (set_add_nonempty urr (ids_of (lookup seid g)))
                (lookup-GroupsLive period g s.perio_list e l))
              l,
          t ∙ sym (length-insert_old period (with_member seid urr g) g s.perio_list e),
        )
]

module _ (query : PerioGroup → Option (Assoc ℕ (List UsaReport))) where
  timeout-IsTidy : (period : ℕ) (s : PerioServer) → IsTidy s → IsTidy (timeout query period s)
  unfolding timeout
  timeout-IsTidy period s h = elim (Option-cases (lookup period s.perio_list)) [
    | inl e ↦ rw (timeout, e) h
    | inr (g, e) ↦ rw (timeout, e) (told (query g))
  ]
    where
      told : (o : Option (Assoc ℕ (List UsaReport))) → IsTidy (answered query o s)
      told none = h
      told (some m) = h

  serve-StaysTidy : (e : PerioEvent) (s : PerioServer) → IsTidy s → StaysTidy (serve query e s)
  unfolding serve
  serve-StaysTidy (perio_add seid urr period) s h = add_urr-StaysTidy seid urr period s h
  serve-StaysTidy (perio_del seid urr) s (l, t) =
      let r = del_urr_lem seid urr s.perio_list l in (r.0, omega (arith, r.1, t))
  serve-StaysTidy (perio_timeout period) s h = timeout-IsTidy period s h
  serve-StaysTidy server_close s (l, t) = (tt, omega (arith, t))

  -- Whatever URRs are added and deleted, and whenever the tickers fire: if no group is empty, no
  -- session in a group is without a URR, and as many tickers run as there are groups, then so it is
  -- after any events on which the server does not panic.
  pub serve_all-IsTidy :
      (es : List PerioEvent) (s s' : PerioServer)
      → IsTidy s
      → serve_all query es s ≡ some s'
      → IsTidy s'
  unfolding serve_all
  serve_all-IsTidy [] s s' h e = subst IsTidy (unwrap e) h
    where
      unwrap : some s ≡ some s' → s ≡ s'
      unwrap e = cc
  serve_all-IsTidy (x ∷ es) s s' h e =
      further (λ v k f. serve_all-IsTidy es v s' k f) (serve query x s) refl (serve-StaysTidy x s h)
    where
      further :
          (rest : (v : PerioServer) → IsTidy v → serve_all query es v ≡ some s' → IsTidy s')
          → (o : Option PerioServer) → serve query x s ≡ o
          → StaysTidy o
          → IsTidy s'
      further rest none q k = absurd (refused (sym (stuck q) ∙ e))
        where
          stuck : serve query x s ≡ none → serve_all query (x ∷ es) s ≡ none
          stuck q = rw (serve_all, q) refl

          refused : none ≢ some s'
          refused h = cc
      further rest (some v) q k = elim (Bool-cases (is_close x)) [
        | inl c ↦ subst IsTidy (same (sym (closed q c) ∙ e)) k
        | inr c ↦ rest v k (sym (onward q c) ∙ e)
      ]
        where
          same : some v ≡ some s' → v ≡ s'
          same h = cc

          closed :
              serve query x s ≡ some v → is_close x ≡ true → serve_all query (x ∷ es) s ≡ some v
          closed q c = rw (serve_all, q, c) refl

          onward :
              serve query x s ≡ some v
              → is_close x ≡ false
              → serve_all query (x ∷ es) s ≡ serve_all query es v
          onward q c = rw (serve_all, q, c) refl
