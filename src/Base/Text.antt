-- ===== src/Base/Text.antt =====
-- The operations of Rust's `str` and `char` that the runtime uses.
use text.Mathlib.Text.{starts_with, ◌==◌}
use Prim.Native.Char.{Char, code}
pub use Prim.Native.String.{◌++◌ as concat}
use Prim.Native.String.{char_at}
use Prim.Native.Nat.{ℕ, ◌-◌}
use Prim.Native.String.{String, ◌++◌}
use mathlib.Core.Bool.{Bool, true, false, ◌&&◌, ◌||◌}
use millrace_rs.Base.Tests.{leb, if◌then◌else◌}

abbrev pub is_blank : String → Bool
is_blank String.[] = true
is_blank (String.◌∷◌ c s) = false

abbrev between : ℕ → ℕ → ℕ → Bool
between lo hi n = leb lo n && leb n hi

-- `char::is_whitespace`: the Unicode property White_Space.
unfoldable pub is_whitespace : ℕ → Bool
is_whitespace n =
    between 9 13 n
    || between 32 32 n
    || between 133 133 n
    || between 160 160 n
    || between 5760 5760 n
    || between 8192 8202 n
    || between 8232 8233 n
    || between 8239 8239 n
    || between 8287 8287 n
    || between 12288 12288 n

unfoldable pub is_ascii_uppercase : ℕ → Bool
is_ascii_uppercase n = between 65 90 n

unfoldable pub is_ascii_alphanumeric : ℕ → Bool
unfolding is_ascii_uppercase
is_ascii_alphanumeric n = between 48 57 n || is_ascii_uppercase n || between 97 122 n

unfoldable pub to_ascii_lowercase_char : Char → Char
unfolding is_ascii_uppercase
to_ascii_lowercase_char c =
    if is_ascii_uppercase (code c) then char_at "abcdefghijklmnopqrstuvwxyz" (code c - 65) else c

unfoldable pub to_ascii_lowercase : String → String
unfolding to_ascii_lowercase_char
to_ascii_lowercase String.[] = String.[]
to_ascii_lowercase (String.◌∷◌ c s) = String.◌∷◌ (to_ascii_lowercase_char c) (to_ascii_lowercase s)

-- The text without the characters at its end that pass a test.
unfoldable pub drop_end : (ℕ → Bool) → String → String
drop_end p String.[] = String.[]
drop_end p (String.◌∷◌ c s) =
    let rest = drop_end p s in if is_blank rest && p (code c) then String.[] else String.◌∷◌ c rest

unfoldable pub drop_start : (ℕ → Bool) → String → String
drop_start p String.[] = String.[]
drop_start p (String.◌∷◌ c s) =
    let rest = drop_start p s in if p (code c) then rest else String.◌∷◌ c s

-- `str::trim`.
unfoldable pub trim : String → String
unfolding is_whitespace drop_start drop_end
trim s = drop_start is_whitespace (drop_end is_whitespace s)

-- `String::push`.
abbrev pub push : String → Char → String
push s c = s ++ String.◌∷◌ c String.[]

unfoldable pub all_chars : (ℕ → Bool) → String → Bool
all_chars p String.[] = true
all_chars p (String.◌∷◌ c s) = p (code c) && all_chars p s

-- `char::is_ascii_digit`
abbrev pub is_digit : ℕ → Bool
is_digit n = between 48 57 n

-- `str::contains` and `str::ends_with`
unfoldable pub contains_part : String → String → Bool
contains_part pattern String.[] = is_blank pattern
contains_part pattern (String.◌∷◌ c s) =
    let later = contains_part pattern s in starts_with (String.◌∷◌ c s) pattern || later

unfoldable pub ends_with : String → String → Bool
ends_with suffix String.[] = is_blank suffix
ends_with suffix (String.◌∷◌ c s) =
    let later = ends_with suffix s in String.◌∷◌ c s == suffix || later
