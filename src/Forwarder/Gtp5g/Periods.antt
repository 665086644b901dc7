-- ===== src/Forwarder/Gtp5g/Periods.antt =====
-- internal/forwarder/gtp5g.go and perio/server.go: the timers that the forwarder asks for.
use go_upf.Base.{
  ℕ, ◌≡◌, ◌≢◌, refl, true, false, Option, none, some, List, [], ◌∷◌, ◌++◌, arith, Assoc, lookup,
  nat_eq, ◌==◌, Bool-cases, Option-cases, is_some, inl, inr,
}
use go_upf.Gtpv1.{has_bit}
use go_upf.Report.{UsaReport, perio}
use go_upf.Perio.{
  PerioServer, PerioGroup, PerioEvent, perio_add, perio_del, perio_timeout, server_close, add_urr,
  serve, is_close, serve_all,
}
use go_upf.Userspace.Parse.Urr.{UrrElement}
use go_upf.Forwarder.Gtp5g.Pdr.{scan}
use go_upf.Forwarder.Gtp5g.Urr.{
  UrrRequest, decoded_or, has_period, create_urr_element, no_urr_request, create_urr_request,
}

-- No timer is asked for with a period of 0.
abbrev pub Timed : List PerioEvent → Type 0
Timed [] = Unit {0}
Timed (perio_add seid urr period ∷ es) = (period ≢ 0) × Timed es
Timed (perio_del seid urr ∷ es) = Timed es
Timed (perio_timeout period ∷ es) = Timed es
Timed (server_close ∷ es) = Timed es

pub Timed-append : (es fs : List PerioEvent) → Timed es → Timed fs → Timed (es ++ fs)
Timed-append [] fs h k = k
Timed-append (perio_add seid urr period ∷ es) fs (p, h) k = (p, Timed-append es fs h k)
Timed-append (perio_del seid urr ∷ es) fs h k = Timed-append es fs h k
Timed-append (perio_timeout period ∷ es) fs h k = Timed-append es fs h k
Timed-append (server_close ∷ es) fs h k = Timed-append es fs h k

add_urr-is_some :
    (seid urr period : ℕ) (s : PerioServer)
    → period ≢ 0
    → is_some (add_urr seid urr period s) ≡ true
unfolding add_urr
add_urr-is_some seid urr period s h = elim (Option-cases (lookup period s.perio_list)) [
  | inl e ↦ let z : (period == 0) ≡ false = ground (arith, h) in rw (e, z, add_urr) refl
  | inr (g, e) ↦ rw (e, add_urr) refl
]

some_of : {A : Type 0} (o : Option A) → is_some o ≡ true → (a : A) × (o ≡ some a)
some_of none h = absurd cc
some_of (some a) h = (a, refl)

module _ (query : PerioGroup → Option (Assoc ℕ (List UsaReport))) where
  -- The server handles all of the events.
  abbrev pub Served : List PerioEvent → PerioServer → Type 0
  Served es s = (s' : PerioServer) × (serve_all query es s ≡ some s')

  and_then :
      (e : PerioEvent) (es : List PerioEvent) (s s' : PerioServer)
      → serve query e s ≡ some s'
      → Served es s'
      → Served (e ∷ es) s
  unfolding serve_all
  and_then e es s s' h (t, k) = elim (Bool-cases (is_close e)) [
    | inl c ↦ (s', rw (h, serve_all, c) refl)
    | inr c ↦ (t, rw (h, serve_all, c) k)
  ]

  pub serve_all-Served : (es : List PerioEvent) (s : PerioServer) → Timed es → Served es s
  unfolding serve_all serve
  serve_all-Served [] s h = (s, refl)
  serve_all-Served (perio_add seid urr period ∷ es) s (p, h) =
      let (s', e) = some_of (add_urr seid urr period s) (add_urr-is_some seid urr period s p) in
      and_then (perio_add seid urr period) es s s' e (serve_all-Served es s' h)
  serve_all-Served (perio_del seid urr ∷ es) s h =
      and_then (perio_del seid urr) es s _ refl (serve_all-Served es _ h)
  serve_all-Served (perio_timeout period ∷ es) s h =
      and_then (perio_timeout period) es s _ refl (serve_all-Served es _ h)
  serve_all-Served (server_close ∷ es) s h =
      and_then server_close es s _ refl (serve_all-Served es _ h)

-- A periodic URR that passes has a period.
abbrev pub HasPeriod : Option UrrRequest → Type 0
HasPeriod none = Unit {0}
HasPeriod (some r) = has_bit r.rpt_trig perio ≡ true → r.measure_period ≢ 0

has_period-HasPeriod : (r : UrrRequest) → HasPeriod (has_period r)
has_period-HasPeriod r = elim (Bool-cases (has_bit r.rpt_trig perio)) [
  | inl e ↦ elim (Bool-cases (r.measure_period == 0)) [
    | inl z ↦ rw (e, z) tt
    | inr z ↦ rw (e, z) (λ h. ground (arith, z))
  ]
  | inr e ↦ rw e (λ h. absurd cc)
]

decoded-HasPeriod : (o : Option UrrRequest) → HasPeriod (decoded_or o has_period)
decoded-HasPeriod none = tt
decoded-HasPeriod (some r) = has_period-HasPeriod r

pub create_urr_request-HasPeriod :
    (els : Option (List UrrElement)) → HasPeriod (create_urr_request els)
unfolding create_urr_request
create_urr_request-HasPeriod none = tt
create_urr_request-HasPeriod (some ies) =
    decoded-HasPeriod (scan create_urr_element no_urr_request ies)
