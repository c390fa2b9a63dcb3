-- ===== src/Prelude/Text.antt =====
-- Texts as the source handles them: case folding, substring tests, splitting and joining. Case
-- folding is that of ASCII letters, the only ones in the names that the source looks for.
use Prim.Native.Nat.{ℕ, ◌+◌, ◌-◌}
use Prim.Native.Char.{code}
use Prim.Native.String
use Prim.Native.String.{String}
use mathlib.Core.Bool.{Bool, true, false, ◌&&◌, ◌||◌}
use mathlib.Core.List.{List, [], ◌∷◌, map}
use mini_sentinel.Prelude.Tests.{leb, eqb, if◌then◌else◌}

-- `s + t`, and a template literal as a chain of these.
infixr 65 ◌^^◌
abbrev pub ◌^^◌ : String → String → String
s ^^ t = String.◌++◌ s t

abbrev pub codes : String → List ℕ
codes String.[] = []
codes (String.◌∷◌ c s) = code c ∷ codes s

lower_code : ℕ → ℕ
lower_code c = if leb b'A' c && leb c b'Z' then c + 32 else c

upper_code : ℕ → ℕ
upper_code c = if leb b'a' c && leb c b'z' then c - 32 else c

-- `s.toLowerCase()` and `s.toUpperCase()`
unfoldable pub to_lower : List ℕ → List ℕ
unfolding lower_code
to_lower s = map lower_code s

unfoldable pub to_upper : List ℕ → List ℕ
unfolding upper_code
to_upper s = map upper_code s

unfoldable pub is_prefix : List ℕ → List ℕ → Bool
is_prefix [] s = true
is_prefix (a ∷ p) [] = false
is_prefix (a ∷ p) (b ∷ s) = eqb a b && is_prefix p s

-- `s.includes(p)`
unfoldable pub includes : List ℕ → List ℕ → Bool
unfolding is_prefix
includes [] p = is_prefix p []
includes (b ∷ s) p = is_prefix p (b ∷ s) || includes s p

-- `s.toLowerCase().includes(p)`
unfoldable pub name_has : String → String → Bool
unfolding to_lower includes
name_has s p = includes (to_lower (codes s)) (codes p)

-- `parts.join(sep)`
unfoldable pub join : String → List String → String
join sep [] = ""
join sep (s ∷ []) = s
join sep (s ∷ (t ∷ ss)) = s ^^ sep ^^ join sep (t ∷ ss)
