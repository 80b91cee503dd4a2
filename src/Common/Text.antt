-- ===== src/Common/Text.antt =====
-- Text as its UTF-16 code units, with what the sources use of the JavaScript library: `trim`,
-- `startsWith`, `split`, `endsWith`, and the classes of characters.
use Prim.Native.Nat.{ℕ, zero, suc, ◌+◌}
use Prim.Native.Char.{code}
use Prim.Native.String.{String}
use mathlib.Core.Bool.{Bool, true, false, ◌&&◌, ◌||◌}
use mathlib.Core.List.{List, [], ◌∷◌, ◌++◌, map, reverse}
use solana_governance.Common.Tests.{leb, ◌==◌, if◌then◌else◌}
pub mod Laws

abbrev pub Text : Type 0
Text = List ℕ

-- the code units of an ASCII literal
abbrev pub text : String → Text
text String.[] = []
text (String.◌∷◌ c s) = code c ∷ text s

abbrev pub is_digit : ℕ → Bool
is_digit c = leb b'0' c && leb c b'9'

abbrev pub is_upper : ℕ → Bool
is_upper c = leb b'A' c && leb c b'Z'

abbrev pub is_lower : ℕ → Bool
is_lower c = leb b'a' c && leb c b'z'

-- White space and line terminators of ECMAScript, which `trim` and `parseInt` skip.
unfoldable pub is_space : ℕ → Bool
is_space c =
    (leb 9 c && leb c 13)
    || c == 32
    || c == 160
    || c == 5760
    || (leb 8192 c && leb c 8202)
    || c == 8232
    || c == 8233
    || c == 8239
    || c == 8287
    || c == 12288
    || c == 65279

unfoldable pub drop_while : (ℕ → Bool) → Text → Text
drop_while p [] = []
drop_while p (c ∷ cs) = let rest = drop_while p cs in if p c then rest else c ∷ cs

unfoldable pub trim_start : Text → Text
unfolding drop_while is_space
trim_start s = drop_while is_space s

unfoldable pub trim_end : Text → Text
unfolding drop_while is_space
trim_end s = reverse (drop_while is_space (reverse s))

unfoldable pub trim : Text → Text
unfolding trim_start trim_end
trim s = trim_end (trim_start s)

unfoldable pub text_eq : Text → Text → Bool
text_eq [] [] = true
text_eq [] (d ∷ t) = false
text_eq (c ∷ s) [] = false
text_eq (c ∷ s) (d ∷ t) = c == d && text_eq s t

-- `s.startsWith(prefix)`
unfoldable pub starts_with : Text → Text → Bool
starts_with s [] = true
starts_with [] (p ∷ ps) = false
starts_with (c ∷ s) (p ∷ ps) = c == p && starts_with s ps

-- a code unit in front of the first part
abbrev pub extend : ℕ → List Text → List Text
extend c [] = (c ∷ []) ∷ []
extend c (part ∷ parts) = (c ∷ part) ∷ parts

-- `s.split(sep)` at one code unit
unfoldable pub split : ℕ → Text → List Text
split sep [] = [] ∷ []
split sep (c ∷ s) = let parts = split sep s in if c == sep then [] ∷ parts else extend c parts

-- `parts.join(sep)`
unfoldable pub join : Text → List Text → Text
join sep [] = []
join sep (part ∷ []) = part
join sep (part ∷ next ∷ parts) = part ++ (sep ++ join sep (next ∷ parts))

-- `s.endsWith(suffix)`
unfoldable pub ends_with : Text → Text → Bool
unfolding text_eq
ends_with [] suffix = text_eq [] suffix
ends_with (c ∷ s) suffix = text_eq (c ∷ s) suffix || ends_with s suffix

-- `s.includes(part)`
unfoldable pub includes : Text → Text → Bool
unfolding starts_with
includes [] part = starts_with [] part
includes (c ∷ s) part = starts_with (c ∷ s) part || includes s part

-- an ASCII letter in lower case, and any other code unit as it is
abbrev pub lower : ℕ → ℕ
lower c = if is_upper c then c + 32 else c

abbrev pub lower_text : Text → Text
lower_text s = map lower s

abbrev pub all : (ℕ → Bool) → Text → Bool
all p [] = true
all p (c ∷ s) = p c && all p s

abbrev pub any : (ℕ → Bool) → Text → Bool
any p [] = false
any p (c ∷ s) = p c || any p s

-- `s.slice(n)`
abbrev pub drop : ℕ → Text → Text
drop zero s = s
drop (suc n) [] = []
drop (suc n) (c ∷ s) = drop n s

-- `s.slice(0, n)`
abbrev pub take : ℕ → Text → Text
take zero s = []
take (suc n) [] = []
take (suc n) (c ∷ s) = c ∷ take n s

abbrev pub is_empty {ℓ} : {A : Type ℓ} → List A → Bool
is_empty [] = true
is_empty (x ∷ xs) = false

abbrev pub some_part : (Text → Bool) → List Text → Bool
some_part p [] = false
some_part p (part ∷ parts) = p part || some_part p parts

-- `parts.filter(Boolean)`
unfoldable pub non_empty : List Text → List Text
non_empty [] = []
non_empty (part ∷ parts) = let rest = non_empty parts in if is_empty part then rest else part ∷ rest
