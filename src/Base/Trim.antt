-- ===== src/Base/Trim.antt =====
-- A trimmed text has nothing left to trim.
use Prim.Native.Char.{code}
use Prim.Native.Nat.{ℕ}
use Prim.Native.String.{String}
use mathlib.Core.Path.{◌≡◌, refl, ap, ◌∙◌}
use mathlib.Core.Logic.{inl, inr}
use mathlib.Core.Bool.{Bool, true, false, ◌&&◌}
use native.Mathlib.Omega.{arith}
use millrace_rs.Base.Tests.{Bool-cases}
use millrace_rs.Base.Text.{is_blank, is_whitespace, drop_start, drop_end, trim}

tail : String → String
tail String.[] = String.[]
tail (String.◌∷◌ c s) = s

module _ (p : ℕ → Bool) where
  drop_end_idem : (s : String) → drop_end p (drop_end p s) ≡ drop_end p s
  unfolding drop_end
  drop_end_idem String.[] = refl
  drop_end_idem (String.◌∷◌ c s) = elim (Bool-cases (is_blank (drop_end p s) && p (code c))) [
    | inl e ↦ rw e refl
    | inr e ↦ rw (e, drop_end_idem s, e) refl
  ]

  drop_start_idem : (s : String) → drop_start p (drop_start p s) ≡ drop_start p s
  unfolding drop_start
  drop_start_idem String.[] = refl
  drop_start_idem (String.◌∷◌ c s) = elim (Bool-cases (p (code c))) [
    | inl e ↦ rw e (drop_start_idem s)
    | inr e ↦ rw (e, e) refl
  ]

  -- Dropping at the start leaves the end as it is.
  drop_end-drop_start :
      (s : String) → drop_end p s ≡ s → drop_end p (drop_start p s) ≡ drop_start p s
  unfolding drop_start drop_end tail
  drop_end-drop_start String.[] h = refl
  drop_end-drop_start (String.◌∷◌ c s) h =
      elim (Bool-cases (is_blank (drop_end p s) && p (code c))) [
        | inl e ↦ absurd (nonempty (rw e at h))
        | inr e ↦ elim (Bool-cases (p (code c))) [
          | inl b ↦ rw b (drop_end-drop_start s (ap tail (rw e at h)))
          | inr b ↦ rw b (h)
        ]
      ]
    where
      nonempty : String.[] ≡ String.◌∷◌ c s → ⊥
      nonempty k = let b : true ≡ false = ap is_blank k in ground arith

pub trim_idem : (s : String) → trim (trim s) ≡ trim s
unfolding trim
trim_idem s =
    ap (drop_start is_whitespace)
      (drop_end-drop_start is_whitespace (drop_end is_whitespace s) (drop_end_idem is_whitespace s))
    ∙ drop_start_idem is_whitespace (drop_end is_whitespace s)
