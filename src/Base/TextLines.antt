-- ===== src/Base/TextLines.antt =====
-- `str::lines`: a line ends with a line feed, which may follow a carriage return, or with the text.
use Prim.Native.Char.{Char, code}
use Prim.Native.Nat.{ℕ}
use Prim.Native.String.append
use Prim.Native.String.{String}
use mathlib.Core.Path.{◌≡◌, refl, ap, ◌∙◌}
use mathlib.Core.Logic.{inl, inr}
use mathlib.Core.Bool.{Bool, true, false, ◌&&◌}
use mathlib.Core.List.{List, [], ◌∷◌, ◌++◌}
use native.Mathlib.Omega.{arith}
use millrace_rs.Base.Lists.{is_empty}
use millrace_rs.Base.Tests.{leb, &&-left, &&-right, if◌then◌else◌, Bool-cases}
use millrace_rs.Base.Text.{concat, is_blank, all_chars}

abbrev is_line_feed : Char → Bool
is_line_feed c = leb 10 (code c) && leb (code c) 10

abbrev is_carriage_return : Char → Bool
is_carriage_return c = leb 13 (code c) && leb (code c) 13

abbrev starts_with_line_feed : String → Bool
starts_with_line_feed String.[] = false
starts_with_line_feed (String.◌∷◌ c s) = is_line_feed c

abbrev put_first : Char → List String → List String
put_first c [] = String.◌∷◌ c String.[] ∷ []
put_first c (l ∷ ls) = String.◌∷◌ c l ∷ ls

-- A line is begun by a line feed, or by a character that is no carriage return at the end of a line.
abbrev line_step : Char → Bool → List String → List String
line_step c at_line_feed rest =
    if is_line_feed c
    then String.[] ∷ rest
    else if is_carriage_return c && at_line_feed
    then rest
    else put_first c rest

unfoldable pub lines : String → List String
lines String.[] = []
lines (String.◌∷◌ c s) = line_step c (starts_with_line_feed s) (lines s)

-- The text is empty or ends with a line feed.
unfoldable pub ends_line : String → Bool
ends_line String.[] = true
ends_line (String.◌∷◌ c String.[]) = is_line_feed c
ends_line (String.◌∷◌ c (String.◌∷◌ d s)) = ends_line (String.◌∷◌ d s)

-- No control characters.
abbrev pub is_printable : ℕ → Bool
is_printable n = leb 32 n

nil : (t : String) → concat String.[] t ≡ t
nil t = λ i. append.nil t i

cons : (c : Char) (s t : String) → concat (String.◌∷◌ c s) t ≡ String.◌∷◌ c (concat s t)
cons c s t = λ i. append.cons c s t i

line_step-append :
    (c : Char) (b : Bool) (ls ms : List String)
    → is_empty ls ≡ false
    → line_step c b (ls ++ ms) ≡ line_step c b ls ++ ms
line_step-append c b [] ms h = absurd (ground arith)
line_step-append c b (l ∷ ls) ms h = elim (Bool-cases (is_line_feed c)) [
  | inl e ↦ rw e refl
  | inr e ↦ elim (Bool-cases (is_carriage_return c && b)) [
    | inl k ↦ rw (e, k) refl
    | inr k ↦ rw (e, k) refl
  ]
]

lines-nonempty : (c : Char) (s : String) → is_empty (lines (String.◌∷◌ c s)) ≡ false
unfolding lines
lines-nonempty c String.[] = elim (Bool-cases (is_line_feed c)) [
  | inl e ↦ rw e refl
  | inr e ↦ elim (Bool-cases (is_carriage_return c && false)) [
    | inl k ↦ absurd (ground arith)
    | inr k ↦ rw (e, k) refl
  ]
]
lines-nonempty c (String.◌∷◌ d s) = elim (Bool-cases (is_line_feed c)) [
  | inl e ↦ rw e refl
  | inr e ↦ elim (Bool-cases (is_carriage_return c && is_line_feed d)) [
    | inl k ↦ rw (e, k, &&-right (is_carriage_return c) (is_line_feed d) k) refl
    | inr k ↦ rw (e, k) (put_nonempty (line_step d (starts_with_line_feed s) (lines s)))
  ]
]
  where
    put_nonempty : (ls : List String) → is_empty (put_first c ls) ≡ false
    put_nonempty [] = refl
    put_nonempty (l ∷ ls) = refl

lines-nil : lines String.[] ≡ []
unfolding lines
lines-nil = refl

lines-cons :
    (c : Char) (s : String)
    → lines (String.◌∷◌ c s) ≡ line_step c (starts_with_line_feed s) (lines s)
unfolding lines
lines-cons c s = refl

at_end :
    (c : Char) (t : String)
    → is_line_feed c ≡ true
    → line_step c (starts_with_line_feed t) (lines t) ≡ lines (String.◌∷◌ c String.[]) ++ lines t
unfolding lines
at_end c t h = rw h refl

one_feed : lines "\n" ≡ String.[] ∷ []
unfolding lines
one_feed = refl

-- The lines of a text that is appended after a line's end come after the lines before.
pub lines-append : (s t : String) → ends_line s ≡ true → lines (concat s t) ≡ lines s ++ lines t
unfolding ends_line
lines-append String.[] t h = ap lines (nil t) ∙ rw lines-nil refl
lines-append (String.◌∷◌ c String.[]) t h =
    ap lines (cons c String.[] t ∙ ap (String.◌∷◌ c) (nil t)) ∙ (lines-cons c t ∙ at_end c t h)
lines-append (String.◌∷◌ c (String.◌∷◌ d s)) t h =
    ap lines (cons c (String.◌∷◌ d s) t)
    ∙ (lines-cons c (concat (String.◌∷◌ d s) t)
        ∙ rw (lines-append (String.◌∷◌ d s) t h, lines-cons c (String.◌∷◌ d s), cons d s t)
            (line_step-append c (is_line_feed d) (lines (String.◌∷◌ d s)) (lines t)
              (lines-nonempty d s)))

-- A line of printable characters is one line.
pub lines-line : (l : String) → all_chars is_printable l ≡ true → lines (concat l "\n") ≡ l ∷ []
unfolding all_chars
lines-line String.[] h = one_feed
lines-line (String.◌∷◌ c l) h =
    ap lines (cons c l "\n")
    ∙ (lines-cons c (concat l "\n")
        ∙ rw (lines-line l (&&-right (is_printable (code c)) (all_chars is_printable l) h))
            (printed (&&-left (is_printable (code c)) (all_chars is_printable l) h)))
  where
    printed :
        is_printable (code c) ≡ true
        → line_step c (starts_with_line_feed (concat l "\n")) (l ∷ []) ≡ String.◌∷◌ c l ∷ []
    printed k =
        let no_feed : is_line_feed c ≡ false = ground arith in
        let no_return : (is_carriage_return c && starts_with_line_feed (concat l "\n")) ≡ false =
          ground arith in
        rw (no_feed, no_return) refl

ends_line-cons :
    (c : Char) (s : String) → is_blank s ≡ false → ends_line (String.◌∷◌ c s) ≡ ends_line s
unfolding ends_line
ends_line-cons c String.[] h = absurd (ground arith)
ends_line-cons c (String.◌∷◌ d s) h = refl

ends_line-feed :
    (s t : String)
    → is_blank t ≡ false
    → ends_line t ≡ true
    → (is_blank (concat s t) ≡ false) × (ends_line (concat s t) ≡ true)
ends_line-feed String.[] t b h = rw (nil t) (b, h)
ends_line-feed (String.◌∷◌ c s) t b h =
    let (k, e) = ends_line-feed s t b h in
    rw (cons c s t) (refl, ends_line-cons c (concat s t) k ∙ e)

pub ends_line-append : (s l : String) → ends_line (concat s (concat l "\n")) ≡ true
unfolding ends_line
ends_line-append s l =
    let (b, e) = ends_line-feed l "\n" refl refl in (ends_line-feed s (concat l "\n") b e).1
