-- ===== src/Userspace/Parse.antt =====
-- internal/forwarder/userspace/parse.go: from information elements to rules. An element is what
-- go-pfcp's decoder of its type answers, `none` for an error; the text of an error is left out.
pub mod Pdr
pub mod Far
pub mod Qer
pub mod Urr
use go_upf.Base.{ℕ, Option, none, some, List, [], ◌∷◌, ◌==◌, if◌then◌else◌}
use go_upf.Userspace.Rule.{Try, ok, fail, missing_id, ◌>>=◌}

-- A loop over elements that stops at the first error.
abbrev pub each_element : {R X : Type 0} → (R → X → Try R) → R → List X → Try R
each_element step r [] = ok r
each_element step r (x ∷ xs) = step r x >>= λ r'. each_element step r' xs

-- `if rule.ID == 0`, at the end of each decoder.
abbrev pub with_id : {R : Type 0} → (R → ℕ) → R → Try R
with_id id r = if id r == 0 then fail missing_id else ok r
