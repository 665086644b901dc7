-- ===== src/Userspace/Buffer/Queue.antt =====
-- internal/forwarder/userspace/pipeline.go: what a queue of waiting packets holds.
use go_upf.Base.{
  ℕ, zero, suc, ◌+◌, ◌-◌, ◌≤◌, ◌<◌, false, ◌&&◌, List, [], ◌∷◌, ◌++◌, ◌≡◌, refl, sym, ap, ◌∙◌,
  arith, length, length-append, length-drop, drop, ltb, Bool-cases, inl, inr, Bytes,
}
use mathlib.Core.List.{append-nil, append_assoc}
use go_upf.Userspace.Buffer.{enqueue}

-- The packets one after the other.
abbrev pub enqueue_all : ℕ → List Bytes → List Bytes → List Bytes
enqueue_all limit queue [] = queue
enqueue_all limit queue (p ∷ ps) = enqueue_all limit (enqueue limit queue p) ps

drop-append :
    {A : Type 0} (n : ℕ) (xs ys : List A) → n ≤ length xs → drop n (xs ++ ys) ≡ drop n xs ++ ys
drop-append zero xs ys h = refl
drop-append (suc n) [] ys h = elim h [ ]
drop-append (suc n) (x ∷ xs) ys h = drop-append n xs ys (omega arith)

drop_nil : {A : Type 0} (n : ℕ) → drop {A = A} n [] ≡ []
drop_nil zero = refl
drop_nil (suc n) = refl

drop-drop : {A : Type 0} (m n k : ℕ) (xs : List A) → k ≡ n + m → drop m (drop n xs) ≡ drop k xs
drop-drop m zero k xs h = ap (λ i. drop i xs) (omega (arith, h))
drop-drop m (suc n) k [] h = drop_nil m ∙ sym (drop_nil k)
drop-drop m (suc n) zero (x ∷ xs) h = absurd (omega (arith, h))
drop-drop m (suc n) (suc k) (x ∷ xs) h = drop-drop m n k xs (omega (arith, h))

-- The last packets up to a limit that is not 0.
abbrev pub last_of : ℕ → List Bytes → List Bytes
last_of limit q = drop (length q - limit) q

enqueue-last_of :
    (limit : ℕ) (queue : List Bytes) (p : Bytes)
    → 0 < limit
    → enqueue limit queue p ≡ last_of limit (queue ++ p ∷ [])
unfolding enqueue
enqueue-last_of limit queue p h =
    elim (Bool-cases (ltb 0 limit && ltb limit (length (queue ++ p ∷ [])))) [
      | inl e ↦ rw e refl
      | inr e ↦ rw e (ap (λ k. drop k (queue ++ p ∷ [])) (short e))
    ]
  where
    short :
        (ltb 0 limit && ltb limit (length (queue ++ p ∷ []))) ≡ false
        → 0 ≡ length (queue ++ p ∷ []) - limit
    short e = ground (arith, e, h)

last_of-append :
    (limit : ℕ) (xs ys : List Bytes)
    → last_of limit (last_of limit xs ++ ys) ≡ last_of limit (xs ++ ys)
last_of-append limit xs ys =
    let n = length xs - limit in
    ap (λ zs. drop (length (last_of limit xs ++ ys) - limit) zs)
      (sym (drop-append n xs ys (omega arith)))
    ∙ drop-drop (length (last_of limit xs ++ ys) - limit) n (length (xs ++ ys) - limit) (xs ++ ys) (
        omega (
          arith,
          length-append (drop (length xs - limit) xs) ys,
          length-append xs ys,
          length-drop (length xs - limit) xs,
        ))

length-last_of : (limit : ℕ) (q : List Bytes) → length (last_of limit q) ≤ limit
length-last_of limit q = omega (arith, length-drop (length q - limit) q)

-- A queue of a limit that is not 0, into which packets are put one after the other, holds the last
-- ones of all that it held and was given, as many as the limit, in the order in which they came.
pub enqueue_all-last_of :
    (limit : ℕ) (queue ps : List Bytes)
    → 0 < limit
    → length queue ≤ limit
    → enqueue_all limit queue ps ≡ last_of limit (queue ++ ps)
enqueue_all-last_of limit queue [] h k = rw (append-nil queue) (ap (λ i. drop i queue) fits)
  where
    fits : 0 ≡ length queue - limit
    fits = omega (arith, k)
enqueue_all-last_of limit queue (p ∷ ps) h k = rw (enqueue-last_of limit queue p h) (
    enqueue_all-last_of limit (last_of limit (queue ++ p ∷ [])) ps h
      (length-last_of limit (queue ++ p ∷ []))
    ∙ last_of-append limit (queue ++ p ∷ []) ps
    ∙ ap (last_of limit) (append_assoc queue (p ∷ []) ps))
