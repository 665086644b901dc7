-- ===== src/Forwarder/FlowDesc/Words.antt =====
-- internal/forwarder/flowdesc.go: what the functions read of one word.
use go_upf.Base.{
  ℕ, ◌≡◌, ◌≢◌, ◌⊎◌, inl, inr, refl, sym, subst, ◌||◌, true, false, Option, none, some, List, [],
  ◌∷◌, Bytes, bytes_beq_iff, codes, split, cut, parse_uint, Bool-cases, arith,
}
use go_upf.Forwarder.FlowDesc.{
  is_word, port_of, one_port, range_to, port_or_range, ports_and, ports_of_parts,
  parse_flow_desc_ports, proto_of, last_ports, parse_flow_desc_ip_net,
}
use go_upf.Forwarder.FlowDesc.Grammar.{IsPort, AllPorts, IsPorts, IsProto, DstPorts, IsAny, IsNet}

-- What is read, if anything is, satisfies `P`.
abbrev pub Holds : {A : Type 0} → (A → Type 0) → Option A → Type 0
Holds P none = Unit {0}
Holds P (some a) = P a

pub Holds-bind :
    {A B : Type 0} (P : A → Type 0) (Q : B → Type 0) (o : Option A) (f : A → Option B)
    → Holds P o
    → ((a : A) → P a → Holds Q (f a))
    → Holds Q (elim o as (λ x. Option B) [ none ↦ none | some a ↦ f a ])
Holds-bind P Q none f h k = tt
Holds-bind P Q (some a) f h k = k a h

pub Holds-self : {A : Type 0} (o : Option A) → Holds (λ a. o ≡ some a) o
Holds-self none = tt
Holds-self (some a) = refl

pub is_word-other : (t u : Bytes) → t ≢ u → is_word t u ≡ false
is_word-other t u h = elim (Bool-cases (is_word t u)) [
  | inl e ↦ absurd (h ((bytes_beq_iff t u).0 e))
  | inr e ↦ e
]

pub is_word-false : (t u : Bytes) → is_word t u ≡ false → t ≢ u
is_word-false t u e h = let e' = (bytes_beq_iff t u).1 h in absurd cc

one_port-Holds :
    (a : Bytes) (o : Option ℕ) → parse_uint 65536 a ≡ o → Holds (IsPort (a, none)) (one_port o)
one_port-Holds a none e = tt
one_port-Holds a (some v) e = (v, e, refl)

range_to-Holds :
    (a b : Bytes) (o p : Option ℕ)
    → parse_uint 65536 a ≡ o
    → parse_uint 65536 b ≡ p
    → Holds (IsPort (a, some b)) (range_to o p)
range_to-Holds a b none p e f = tt
range_to-Holds a b (some v) none e f = tt
range_to-Holds a b (some v) (some w) e f = (v, w, e, f, refl)

port_or_range-Holds : (r : Bytes × Option Bytes) → Holds (IsPort r) (port_or_range r)
port_or_range-Holds (a, none) = one_port-Holds a (port_of a) refl
port_or_range-Holds (a, some b) = range_to-Holds a b (port_of a) (port_of b) refl refl

port_or_range-IsPort :
    (r : Bytes × Option Bytes) (p : List ℕ) → IsPort r p → port_or_range r ≡ some p
port_or_range-IsPort (a, none) p (v, e, f) = rw (e, f) refl
port_or_range-IsPort (a, some b) p (v, w, e, f, g) = rw (e, f, g) refl

ports_and-Holds :
    (t : Bytes) (ts : List Bytes) (o : Option (List ℕ)) (os : Option (List (List ℕ)))
    → Holds (IsPort (cut b'-' t)) o
    → Holds (AllPorts ts) os
    → Holds (AllPorts (t ∷ ts)) (ports_and o os)
ports_and-Holds t ts none os h k = tt
ports_and-Holds t ts (some p) none h k = tt
ports_and-Holds t ts (some p) (some ps) h k = (h, k)

ports_of_parts-Holds : (ts : List Bytes) → Holds (AllPorts ts) (ports_of_parts ts)
ports_of_parts-Holds [] = tt
ports_of_parts-Holds (t ∷ ts) =
    ports_and-Holds t ts (port_or_range (cut b'-' t)) (ports_of_parts ts)
      (port_or_range-Holds (cut b'-' t)) (ports_of_parts-Holds ts)

ports_of_parts-AllPorts :
    (ts : List Bytes) (ps : List (List ℕ)) → AllPorts ts ps → ports_of_parts ts ≡ some ps
ports_of_parts-AllPorts [] [] h = refl
ports_of_parts-AllPorts [] (p ∷ ps) h = absurd h
ports_of_parts-AllPorts (t ∷ ts) [] h = absurd h
ports_of_parts-AllPorts (t ∷ ts) (p ∷ ps) (h, k) =
    rw (port_or_range-IsPort (cut b'-' t) p h, ports_of_parts-AllPorts ts ps k) refl

pub parse_flow_desc_ports-Holds : (t : Bytes) → Holds (IsPorts t) (parse_flow_desc_ports t)
unfolding parse_flow_desc_ports
parse_flow_desc_ports-Holds t = ports_of_parts-Holds (split b',' t)

pub parse_flow_desc_ports-IsPorts :
    (t : Bytes) (ps : List (List ℕ)) → IsPorts t ps → parse_flow_desc_ports t ≡ some ps
unfolding parse_flow_desc_ports
parse_flow_desc_ports-IsPorts t ps h = ports_of_parts-AllPorts (split b',' t) ps h

-- The ports at the end are those that stand there, and none where the word is none.
pub last_ports-DstPorts : (ts : List Bytes) → DstPorts ts (last_ports ts)
last_ports-DstPorts [] = refl
last_ports-DstPorts (t ∷ ts) =
    read (parse_flow_desc_ports t) (parse_flow_desc_ports-Holds t)
      (λ qs h. parse_flow_desc_ports-IsPorts t qs h)
  where
    read :
        (o : Option (List (List ℕ)))
        → Holds (IsPorts t) o
        → ((qs : List (List ℕ)) → IsPorts t qs → o ≡ some qs)
        → DstPorts (t ∷ ts) (elim o as (λ x. List (List ℕ)) [ none ↦ [] | some q ↦ q ])
    read none h k = inr (λ qs p. absurd (ground (arith, k qs p)), refl)
    read (some q) h k = inl h

pub DstPorts-last_ports :
    (ts : List Bytes) (ps : List (List ℕ)) → DstPorts ts ps → last_ports ts ≡ ps
DstPorts-last_ports [] ps h = sym h
DstPorts-last_ports (t ∷ ts) ps (inl h) = rw (parse_flow_desc_ports-IsPorts t ps h, last_ports) refl
DstPorts-last_ports (t ∷ ts) ps (inr (h, e)) =
    read (parse_flow_desc_ports t) (parse_flow_desc_ports-Holds t)
  where
    read :
        (o : Option (List (List ℕ)))
        → Holds (IsPorts t) o
        → (elim o as (λ x. List (List ℕ)) [ none ↦ [] | some q ↦ q ]) ≡ ps
    read none k = sym e
    read (some q) k = absurd (h q k)

pub proto_of-Holds : (t : Bytes) → Holds (IsProto t) (proto_of t)
proto_of-Holds t = elim (Bool-cases (is_word t (codes "ip"))) [
  | inl e ↦ rw e (inl ((bytes_beq_iff t (codes "ip")).0 e, refl))
  | inr e ↦ rw e (read (parse_uint 256 t) refl (is_word-false t (codes "ip") e))
]
  where
    read : (o : Option ℕ) → parse_uint 256 t ≡ o → t ≢ codes "ip" → Holds (IsProto t) o
    read none e h = tt
    read (some v) e h = inr (h, e)

pub proto_of-IsProto : (t : Bytes) (v : ℕ) → IsProto t v → proto_of t ≡ some v
proto_of-IsProto t v (inl (e, f)) = rw (e, f) refl
proto_of-IsProto t v (inr (h, e)) = rw (is_word-other t (codes "ip") h) e

module _ {N : Type 0} (everything : N) (parse_cidr parse_host : Bytes → Option N) where
  wildcard_sound :
      (t : Bytes) → is_word t (codes "any") || is_word t (codes "assigned") ≡ true → IsAny t
  wildcard_sound t e = elim (Bool-cases (is_word t (codes "any"))) [
    | inl f ↦ inl ((bytes_beq_iff t (codes "any")).0 f)
    | inr f ↦ inr (
        (bytes_beq_iff t (codes "assigned")).0
          (subst (λ b. (b || is_word t (codes "assigned")) ≡ true) f e))
  ]

  wildcard_complete :
      (t : Bytes) → IsAny t → is_word t (codes "any") || is_word t (codes "assigned") ≡ true
  wildcard_complete t (inl e) = rw e refl
  wildcard_complete t (inr e) = rw e refl

  -- With an address that the package net reads, or with a network.
  read_address :
      (t : Bytes) (o : Option N)
      → parse_cidr t ≡ o
      → ¬ IsAny t
      → Holds
          (IsNet everything parse_cidr parse_host t)
          (elim o as (λ x. Option N) [ none ↦ parse_host t | some n ↦ some n ])
  read_address t (some n) e h = inr (h, inl e)
  read_address t none e h = read (parse_host t) refl
    where
      read : (p : Option N) → parse_host t ≡ p → Holds (IsNet everything parse_cidr parse_host t) p
      read none f = tt
      read (some n) f = inr (h, inr (e, f))

  pub parse_flow_desc_ip_net-Holds :
      (t : Bytes)
      → Holds
          (IsNet everything parse_cidr parse_host t)
          (parse_flow_desc_ip_net everything parse_cidr parse_host t)
  unfolding parse_flow_desc_ip_net
  parse_flow_desc_ip_net-Holds t =
      elim (Bool-cases (is_word t (codes "any") || is_word t (codes "assigned"))) [
        | inl e ↦ rw e (inl (wildcard_sound t e, refl))
        | inr e ↦
            rw e (
              read_address t (parse_cidr t) refl (λ h. let e' = wildcard_complete t h in absurd cc))
      ]

  pub parse_flow_desc_ip_net-IsNet :
      (t : Bytes) (n : N)
      → IsNet everything parse_cidr parse_host t n
      → parse_flow_desc_ip_net everything parse_cidr parse_host t ≡ some n
  unfolding parse_flow_desc_ip_net
  parse_flow_desc_ip_net-IsNet t n (inl (h, e)) = rw (wildcard_complete t h, e) refl
  parse_flow_desc_ip_net-IsNet t n (inr (h, e)) =
      elim (Bool-cases (is_word t (codes "any") || is_word t (codes "assigned"))) [
        | inl f ↦ absurd (h (wildcard_sound t f))
        | inr f ↦ rw f (read e)
      ]
    where
      read :
          (parse_cidr t ≡ some n) ⊎ ((parse_cidr t ≡ none) × (parse_host t ≡ some n))
          → (elim (parse_cidr t) as (λ x. Option N) [ none ↦ parse_host t | some m ↦ some m ])
            ≡ some n
      read (inl g) = rw g refl
      read (inr (g, k)) = rw (g, k) refl
