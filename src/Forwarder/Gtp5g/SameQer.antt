-- ===== src/Forwarder/Gtp5g/SameQer.antt =====
-- internal/forwarder/gtp5g.go and userspace/parse.go: one Create QER or Update QER element in the
-- two forwarders.
use go_upf.Base.{
  ℕ, ◌+◌, ◌*◌, ◌/◌, ◌%◌, ◌^◌, ◌<◌, ◌≡◌, refl, sym, subst, ◌∙◌, Option, none, some, List, [], ◌∷◌,
  Bytes, arith, ◌==◌, Bool-cases, inl, inr,
}
use go_upf.Userspace.Rule.{Try, ok, fail, ◌>>=◌, QerRule}
use go_upf.Userspace.Parse.{each_element, with_id}
use go_upf.Userspace.Parse.Qer.{
  QerElement, qer_id_el, correlation_id_el, gate_status_el, qfi_el, rqi_el, paging_policy_el,
  mbr_el, gbr_el, other_qer_el, qer_element, empty_qer, decode_qer,
}
use go_upf.Forwarder.Gtp5g.Attr.{
  AttrType, AttrValue, AttrList, no_attrs, attr, ◌+++◌, u8, u32, nested, qer_corr_id, qer_gate,
  qer_mbr, qer_gbr, qer_qfi, qer_rqi, qer_ppi, qer_mbr_ul_high32, qer_mbr_ul_low8,
  qer_mbr_dl_high32, qer_mbr_dl_low8, qer_gbr_ul_high32, qer_gbr_ul_low8, qer_gbr_dl_high32,
  qer_gbr_dl_low8,
}
use go_upf.Forwarder.Gtp5g.Pdr.{Request, no_request}
use go_upf.Forwarder.Gtp5g.Qer.{qer_request_element, qer_elements, qer_request}

-- A bit rate from its upper 32 bits and its lowest eight.
abbrev pub rate : ℕ → ℕ → ℕ
rate high low = high * 256 + low

-- A reader of the attributes: each one sets a field of the rule, and the last one counts.
abbrev pub read_attr : AttrType → AttrValue → QerRule → QerRule
read_attr qer_corr_id (u32 v) r = record r { correlation_id = some v }
read_attr qer_gate (u8 v) r = record r { gate_status = some v }
read_attr qer_qfi (u8 v) r = record r { qfi = some v }
read_attr qer_rqi (u8 v) r = record r { rqi = some v }
read_attr qer_ppi (u8 v) r = record r { ppi = some v }
read_attr qer_mbr
      (nested (
        attr qer_mbr_ul_high32 (u32 uh) (
          attr qer_mbr_ul_low8
            (u8 ul)
            (attr qer_mbr_dl_high32 (u32 dh) (attr qer_mbr_dl_low8 (u8 dl) no_attrs)))))
      r =
    record r { mbr_ul = some (rate uh ul); mbr_dl = some (rate dh dl) }
read_attr qer_gbr
      (nested (
        attr qer_gbr_ul_high32 (u32 uh) (
          attr qer_gbr_ul_low8
            (u8 ul)
            (attr qer_gbr_dl_high32 (u32 dh) (attr qer_gbr_dl_low8 (u8 dl) no_attrs)))))
      r =
    record r { gbr_ul = some (rate uh ul); gbr_dl = some (rate dh dl) }
read_attr _ _ r = r

abbrev pub read_qer : AttrList → QerRule → QerRule
read_qer no_attrs r = r
read_qer (attr t v ats) r = read_qer ats (read_attr t v r)

-- The rule that a request of the kernel forwarder describes.
abbrev pub described : Request → Bytes → QerRule
described q raw = record (read_qer q.attrs (empty_qer raw)) { id = q.id }

-- The bit rates that the element carries fit 40 bits, as PFCP encodes them.
abbrev pub RateFits : Option ℕ → Type 0
RateFits none = Unit {0}
RateFits (some v) = v < 2 ^ 40

abbrev pub ElementFits : QerElement → Type 0
ElementFits (mbr_el ul dl) = RateFits ul × RateFits dl
ElementFits (gbr_el ul dl) = RateFits ul × RateFits dl
ElementFits _ = Unit {0}

abbrev pub ElementsFit : List QerElement → Type 0
ElementsFit [] = Unit {0}
ElementsFit (x ∷ xs) = ElementFits x × ElementsFit xs

read-append :
    (ats bts : AttrList) (r : QerRule) → read_qer (ats +++ bts) r ≡ read_qer bts (read_qer ats r)
read-append no_attrs bts r = refl
read-append (attr t v ats) bts r = read-append ats bts (read_attr t v r)

rate_split : (v : ℕ) → v < 2 ^ 40 → rate (v / 256 % 2 ^ 32) (v % 256) ≡ v
rate_split v h = omega arith

ok_injective : {A : Type 0} {a b : A} → ok a ≡ ok b → a ≡ b
ok_injective e = cc

ok-bind :
    {A B : Type 0} (o : Try A) (f : A → Try B) (r : B)
    → (o >>= f) ≡ ok r
    → (a : A) × (o ≡ ok a) × (f a ≡ ok r)
ok-bind (ok a) f r e = (a, refl, e)
ok-bind (fail x) f r e = absurd cc

-- One element makes the same of the request and of the rule.
element-described :
    (q : Request) (raw : Bytes) (r : QerRule) (x : QerElement)
    → ElementFits x
    → qer_element (described q raw) x ≡ ok r
    → described (qer_request_element q x) raw ≡ r
element-described q raw r (qer_id_el none) f e = absurd cc
element-described q raw r (qer_id_el (some v)) f e = ok_injective e
element-described q raw r (correlation_id_el none) f e = absurd cc
element-described q raw r (correlation_id_el (some v)) f e =
    rw (read-append q.attrs _ (empty_qer raw)) (ok_injective e)
element-described q raw r (gate_status_el none) f e = absurd cc
element-described q raw r (gate_status_el (some v)) f e =
    rw (read-append q.attrs _ (empty_qer raw)) (ok_injective e)
element-described q raw r (mbr_el none dl) f e = absurd cc
element-described q raw r (mbr_el (some u) none) f e = absurd cc
element-described q raw r (mbr_el (some u) (some d)) (fu, fd) e =
    rw (read-append q.attrs _ (empty_qer raw), rate_split u fu, rate_split d fd) (ok_injective e)
element-described q raw r (gbr_el none dl) f e = absurd cc
element-described q raw r (gbr_el (some u) none) f e = absurd cc
element-described q raw r (gbr_el (some u) (some d)) (fu, fd) e =
    rw (read-append q.attrs _ (empty_qer raw), rate_split u fu, rate_split d fd) (ok_injective e)
element-described q raw r (qfi_el none) f e = absurd cc
element-described q raw r (qfi_el (some v)) f e =
    rw (read-append q.attrs _ (empty_qer raw)) (ok_injective e)
element-described q raw r (rqi_el none) f e = absurd cc
element-described q raw r (rqi_el (some v)) f e =
    rw (read-append q.attrs _ (empty_qer raw)) (ok_injective e)
element-described q raw r (paging_policy_el none) f e = absurd cc
element-described q raw r (paging_policy_el (some v)) f e =
    rw (read-append q.attrs _ (empty_qer raw)) (ok_injective e)
element-described q raw r other_qer_el f e = ok_injective e

elements-described :
    (xs : List QerElement) (q : Request) (raw : Bytes) (r : QerRule)
    → ElementsFit xs
    → each_element qer_element (described q raw) xs ≡ ok r
    → described (qer_elements q xs) raw ≡ r
elements-described [] q raw r f e = ok_injective e
elements-described (x ∷ xs) q raw r (f, fs) e =
    let (r', e1, e2) =
      ok-bind (qer_element (described q raw) x) (λ r'. each_element qer_element r' xs) r e in
    elements-described xs (qer_request_element q x) raw r fs (
      subst (λ d. each_element qer_element d xs ≡ ok r) (sym (element-described q raw r' x f e1))
        e2)

with_id_ok : (o r : QerRule) → with_id (λ x. x.id) o ≡ ok r → o ≡ r
with_id_ok o r e = elim (Bool-cases (o.id == 0)) [ inl z ↦ absurd cc | inr z ↦ ground (arith, e) ]

-- One element in the two forwarders: where the userspace forwarder decodes a QER from an element
-- whose bit rates fit 40 bits, the kernel forwarder sends a request under the same ID, whose
-- attributes, read in their order, set the fields of that rule and leave the others unset.
pub qer_request-decode_qer :
    (xs : List QerElement) (raw : Bytes) (r : QerRule)
    → ElementsFit xs
    → decode_qer (some xs) raw ≡ ok r
    → (q : Request) × (qer_request (some xs) ≡ some q) × (described q raw ≡ r)
unfolding decode_qer qer_request
qer_request-decode_qer xs raw r f e =
    let (o, e1, e2) =
      ok-bind (each_element qer_element (empty_qer raw) xs) (λ x. with_id (λ y. y.id) x) r e in
    (
      qer_elements no_request xs,
      refl,
      elements-described xs no_request raw o f e1 ∙ with_id_ok o r e2,
    )
