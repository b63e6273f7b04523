-- ===== src/Prelude/Texts.antt =====
-- Python's methods of `str` that the program uses.
use Prim.Native.Nat.{ℕ, ◌+◌}
use Prim.Native.Char.{code}
use Prim.Native.String.{String, ◌++◌}
use Prim.Native.String.append
use mathlib.Core.Path.{◌≡◌, refl, sym, ap, ◌∙◌}
use mathlib.Core.Bool.{Bool, true, false, ◌&&◌, ◌||◌}
use mathlib.Core.List.{[], ◌∷◌}
use time_weaver.Prelude.Tests.{ltb, leb, nat_comparable, ◌==◌, if◌then◌else◌}
use time_weaver.Prelude.Sets.{contains}

abbrev pub is_blank : String → Bool
is_blank String.[] = true
is_blank (String.◌∷◌ c s) = false

-- The characters that `str.strip` removes.
unfoldable pub is_space : ℕ → Bool
is_space n =
    leb 9 n && leb n 13
    || leb 28 n && leb n 32
    || leb 8192 n && leb n 8202
    || contains n (133 ∷ 160 ∷ 5760 ∷ 8232 ∷ 8233 ∷ 8239 ∷ 8287 ∷ 12288 ∷ [])

unfoldable pub strip_start : String → String
strip_start String.[] = String.[]
strip_start (String.◌∷◌ c s) =
    let rest = strip_start s in if is_space (code c) then rest else String.◌∷◌ c s

unfoldable pub strip_end : String → String
strip_end String.[] = String.[]
strip_end (String.◌∷◌ c s) =
    let rest = strip_end s in
    if is_blank rest && is_space (code c) then String.[] else String.◌∷◌ c rest

-- text.strip()
unfoldable pub strip : String → String
unfolding strip_start strip_end is_space
strip s = strip_end (strip_start s)

-- The code of a letter's lower case; only ASCII letters fall to ASCII ones other than `k`.
abbrev lower_code : ℕ → ℕ
lower_code n = if leb 65 n && leb n 90 then n + 32 else n

-- text.lower() == word, for a word of ASCII letters or digits without a `k`.
unfoldable pub reads_as : String → String → Bool
reads_as String.[] String.[] = true
reads_as String.[] (String.◌∷◌ d t) = false
reads_as (String.◌∷◌ c s) String.[] = false
reads_as (String.◌∷◌ c s) (String.◌∷◌ d t) = lower_code (code c) == code d && reads_as s t

-- any(ord(character) < 32 for character in text)
unfoldable pub has_control : String → Bool
has_control String.[] = false
has_control (String.◌∷◌ c s) = ltb (code c) 32 || has_control s

-- value[:-1] + "+00:00" if value.endswith("Z") else value
unfoldable pub utc_offset : String → String
utc_offset String.[] = String.[]
utc_offset (String.◌∷◌ c String.[]) = if code c == 90 then "+00:00" else String.◌∷◌ c String.[]
utc_offset (String.◌∷◌ c (String.◌∷◌ d s)) = String.◌∷◌ c (utc_offset (String.◌∷◌ d s))

pub utc_offset-append : (s : String) → utc_offset (s ++ "Z") ≡ s ++ "+00:00"
unfolding utc_offset
utc_offset-append String.[] = refl
utc_offset-append (String.◌∷◌ c String.[]) =
    rw (append.cons c "" "Z", append.cons c "" "+00:00") refl
utc_offset-append (String.◌∷◌ c (String.◌∷◌ d s)) =
    rw
      (
        append.cons c (String.◌∷◌ d s) "Z",
        append.cons d s "Z",
        append.cons c (String.◌∷◌ d s) "+00:00",
      )
      (ap (String.◌∷◌ c)
        (ap utc_offset (sym (append.cons d s "Z")) ∙ utc_offset-append (String.◌∷◌ d s)))
