-- ===== src/Prelude/Strings.antt =====
-- Text as a list of UTF-16 code units, with the operations of JavaScript that the source uses.
use Prim.Native.Nat.{ℕ, ◌+◌, ◌-◌}
use Prim.Native.Char.{code}
use Prim.Native.String.{String}
use mathlib.Core.Bool.{Bool, true, false, ◌&&◌, ◌||◌}
use mathlib.Core.List.{List, [], ◌∷◌, ◌++◌, reverse, reverse-append, reverse-reverse, flat_map}
use mathlib.Core.Path.{◌≡◌, refl, ◌∙◌}
use towerdesk_backend_clean.Prelude.Tests.{◌==◌, leb, if◌then◌else◌}

abbrev pub Text : Type 0
Text = List ℕ

-- The code units of an ASCII literal.
abbrev pub codes : String → Text
codes String.[] = []
codes (String.◌∷◌ c s) = code c ∷ codes s

-- What `\s` and `trim` take for white space.
unfoldable pub is_space : ℕ → Bool
is_space c =
    c == 32
    || (leb 9 c && leb c 13)
    || c == 0xa0
    || c == 0x1680
    || (leb 0x2000 c && leb c 0x200a)
    || c == 0x2028
    || c == 0x2029
    || c == 0x202f
    || c == 0x205f
    || c == 0x3000
    || c == 0xfeff

drop_spaces : Text → Text
unfolding is_space
drop_spaces [] = []
drop_spaces (c ∷ cs) = let rest = drop_spaces cs in if is_space c then rest else c ∷ cs

-- `s.trim()`
unfoldable pub trim : Text → Text
unfolding drop_spaces
trim s = reverse (drop_spaces (reverse (drop_spaces s)))

-- `s.trimEnd()`
unfoldable pub trim_end : Text → Text
unfolding drop_spaces
trim_end s = reverse (drop_spaces (reverse s))

-- A text that ends in a unit that is no white space is left as it is.
pub trim_end-append_unit :
    (s : Text) (c : ℕ) → is_space c ≡ false → trim_end (s ++ (c ∷ [])) ≡ s ++ (c ∷ [])
unfolding trim_end drop_spaces
trim_end-append_unit s c h =
    rw (reverse-append, h) (reverse-append (c ∷ []) (reverse s) ∙ rw reverse-reverse refl)

-- `toLowerCase` of one code unit, as far as its result can hold an ASCII letter: A to Z, the
-- Kelvin sign, and I with a dot above. Every other unit has no ASCII unit in its lower case.
lower_unit : ℕ → Text
lower_unit c =
    if leb 65 c && leb c 90
    then (c + 32) ∷ []
    else if c == 0x212a
    then 107 ∷ []
    else if c == 0x130
    then 105 ∷ 0x307 ∷ []
    else c ∷ []

-- `s.toLowerCase()`
unfoldable pub to_lower_case : Text → Text
unfolding lower_unit
to_lower_case s = flat_map lower_unit s

-- `toUpperCase` of one code unit, as far as its result can hold an ASCII letter: a to z, the i
-- without a dot, the long s, and the units that become several letters.
upper_unit : ℕ → Text
upper_unit c =
    if leb 97 c && leb c 122
    then (c - 32) ∷ []
    else if c == 0x131
    then 73 ∷ []
    else if c == 0x17f
    then 83 ∷ []
    else if c == 0xdf
    then 83 ∷ 83 ∷ []
    else if c == 0x149
    then 0x2bc ∷ 78 ∷ []
    else if c == 0x1f0
    then 74 ∷ 0x30c ∷ []
    else if c == 0x1e96
    then 72 ∷ 0x331 ∷ []
    else if c == 0x1e97
    then 84 ∷ 0x308 ∷ []
    else if c == 0x1e98
    then 87 ∷ 0x30a ∷ []
    else if c == 0x1e99
    then 89 ∷ 0x30a ∷ []
    else if c == 0x1e9a
    then 65 ∷ 0x2be ∷ []
    else if c == 0xfb00
    then 70 ∷ 70 ∷ []
    else if c == 0xfb01
    then 70 ∷ 73 ∷ []
    else if c == 0xfb02
    then 70 ∷ 76 ∷ []
    else if c == 0xfb03
    then 70 ∷ 70 ∷ 73 ∷ []
    else if c == 0xfb04
    then 70 ∷ 70 ∷ 76 ∷ []
    else if c == 0xfb05 || c == 0xfb06
    then 83 ∷ 84 ∷ []
    else c ∷ []

-- `s.toUpperCase()`
unfoldable pub to_upper_case : Text → Text
unfolding upper_unit
to_upper_case s = flat_map upper_unit s

-- `s.replace(/\s+/g, ' ')`; the flag says that the last unit read was white space.
collapse_from : Bool → Text → Text
unfolding is_space
collapse_from after [] = []
collapse_from after (c ∷ cs) =
    let rest = collapse_from (is_space c) cs in
    if is_space c then if after then rest else 32 ∷ rest else c ∷ rest

unfoldable pub collapse_spaces : Text → Text
unfolding collapse_from
collapse_spaces s = collapse_from false s

starts_with : Text → Text → Bool
starts_with s [] = true
starts_with [] (k ∷ ks) = false
starts_with (c ∷ cs) (k ∷ ks) = c == k && starts_with cs ks

-- `s.includes(k)`
unfoldable pub includes : Text → Text → Bool
unfolding starts_with
includes [] k = starts_with [] k
includes (c ∷ cs) k = starts_with (c ∷ cs) k || includes cs k

-- A text is falsy when it is empty.
abbrev pub is_empty : Text → Bool
is_empty [] = true
is_empty (c ∷ cs) = false

-- `s === t`
abbrev pub same_text : Text → Text → Bool
same_text [] [] = true
same_text (c ∷ cs) (d ∷ ds) = c == d && same_text cs ds
same_text _ _ = false
