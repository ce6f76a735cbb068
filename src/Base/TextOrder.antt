-- ===== src/Base/TextOrder.antt =====
-- The order of texts, and of pairs of texts as tuples are compared.
use Prim.Native.Char.{Char, code}
use Prim.Native.Nat.{ℕ, Ordering, compare as compare_ℕ}
use Prim.Native.String.{String, compare, then}
use Prim.Native.String.compare as clauses
use mathlib.Core.Path.{◌≡◌, ap, ◌∙◌}
use mathlib.Core.Bool.{Bool, true, false, not, ◌&&◌, ◌||◌}
use native.Mathlib.Omega.{arith}
use millrace_rs.Base.Tests.{ltb}
use millrace_rs.Base.Sort.{text_lt}

is_lt : Ordering → Bool
is_lt o = elim o [ Ordering.lt ↦ true | _ ↦ false ]

then_lt :
    (a b : ℕ) (o : Ordering)
    → is_lt (then (compare_ℕ a b) o) ≡ (ltb a b || (not (ltb b a) && is_lt o))
unfolding is_lt
then_lt a b o = ground arith

-- Texts are compared by their first characters, and then by the rest.
text_lt-cons :
    (c d : Char) (s t : String)
    → text_lt (String.◌∷◌ c s) (String.◌∷◌ d t)
      ≡ (ltb (code c) (code d) || (not (ltb (code d) (code c)) && text_lt s t))
unfolding is_lt
text_lt-cons c d s t =
    ap is_lt (λ i. clauses.cons-cons c d s t i) ∙ then_lt (code c) (code d) (compare s t)

text_lt-nil_nil : text_lt String.[] String.[] ≡ false
unfolding is_lt
text_lt-nil_nil = ap is_lt (λ i. clauses.nil-nil i)

text_lt-nil_cons : (d : Char) (t : String) → text_lt String.[] (String.◌∷◌ d t) ≡ true
unfolding is_lt
text_lt-nil_cons d t = ap is_lt (λ i. clauses.nil-cons d t i)

text_lt-cons_nil : (c : Char) (s : String) → text_lt (String.◌∷◌ c s) String.[] ≡ false
unfolding is_lt
text_lt-cons_nil c s = ap is_lt (λ i. clauses.cons-nil c s i)

pub text_lt-asym : (s t : String) → text_lt s t ≡ true → text_lt t s ≡ false
text_lt-asym String.[] String.[] h = text_lt-nil_nil
text_lt-asym String.[] (String.◌∷◌ d t) h = text_lt-cons_nil d t
text_lt-asym (String.◌∷◌ c s) String.[] h = let k = text_lt-cons_nil c s in absurd (ground arith)
text_lt-asym (String.◌∷◌ c s) (String.◌∷◌ d t) h =
    ground (arith, text_lt-cons c d s t, text_lt-cons d c t s, text_lt-asym s t)

-- What is not before a text that is not before a third is not before the third.
pub text_lt-not_trans :
    (s t u : String) → text_lt s t ≡ false → text_lt t u ≡ false → text_lt s u ≡ false
text_lt-not_trans s String.[] String.[] h k = h
text_lt-not_trans String.[] (String.◌∷◌ d t) u h k =
    let first = text_lt-nil_cons d t in absurd (ground arith)
text_lt-not_trans (String.◌∷◌ c s) t String.[] h k = text_lt-cons_nil c s
text_lt-not_trans s String.[] (String.◌∷◌ e u) h k =
    let first = text_lt-nil_cons e u in absurd (ground arith)
text_lt-not_trans (String.◌∷◌ c s) (String.◌∷◌ d t) (String.◌∷◌ e u) h k = ground (
  arith,
  text_lt-cons c d s t,
  text_lt-cons d e t u,
  text_lt-cons c e s u,
  text_lt-not_trans s t u,
)
