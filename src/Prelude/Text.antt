-- ===== src/Prelude/Text.antt =====
-- Python's `str` where the program looks into it: a list of code points.
use Prim.Native.Char.{code}
use Prim.Native.String.{String}
use Prim.Native.Nat.{ℕ}
use mathlib.Core.Path.{◌≡◌, refl}
use mathlib.Core.Logic.{◌↔◌}
use mathlib.Core.Bool.{Bool, true, false, ◌&&◌, ◌||◌}
use mathlib.Core.Option.{Option, none, some}
use mathlib.Core.List.{List, [], ◌∷◌, reverse}
use native.Mathlib.Omega.{arith}
use slayer.Prelude.Tests.{ltb, leb, eqb, if◌then◌else◌}

abbrev pub Text : Type 0
Text = List ℕ

abbrev pub text : String → Text
text String.[] = []
text (String.◌∷◌ c s) = code c ∷ text s

unfoldable pub text_eq : Text → Text → Bool
text_eq [] [] = true
text_eq (a ∷ s) (b ∷ t) = eqb a b && text_eq s t
text_eq _ _ = false

pub text_eq_iff : (s t : Text) → (text_eq s t ≡ true) ↔ (s ≡ t)
unfolding text_eq
text_eq_iff [] [] = (λ _. refl, λ _. refl)
text_eq_iff [] (b ∷ t) = ground arith
text_eq_iff (a ∷ s) [] = ground arith
text_eq_iff (a ∷ s) (b ∷ t) = ground (arith, text_eq_iff s t)

-- `c.isspace()`
unfoldable pub is_space : ℕ → Bool
is_space c =
    leb 9 c && leb c 13
    || (leb 28 c && leb c 32
        || (eqb c 133
            || eqb c 160
            || eqb c 5760
            || (leb 8192 c && leb c 8202
                || (eqb c 8232 || eqb c 8233 || eqb c 8239 || eqb c 8287 || eqb c 12288))))

unfoldable lstrip : Text → Text
lstrip [] = []
lstrip (c ∷ s) = elim (is_space c) [ true ↦ lstrip s | false ↦ c ∷ s ]

-- `s.strip()`
unfoldable pub strip : Text → Text
unfolding lstrip is_space
strip s = reverse (lstrip (reverse (lstrip s)))

-- `s.split(sep)` for a separator of one character
unfoldable pub split_on : ℕ → Text → List Text
split_on sep [] = [] ∷ []
split_on sep (c ∷ s) = elim (eqb c sep) [
  | true ↦ [] ∷ split_on sep s
  | false ↦ elim (split_on sep s) [ [] ↦ (c ∷ []) ∷ [] | t ∷ rest ↦ (c ∷ t) ∷ rest ]
]

-- `s.partition(sep)` for a separator of one character; `none` where it does not occur
unfoldable pub partition : ℕ → Text → Option (Text × Text)
partition sep [] = none
partition sep (c ∷ s) = elim (eqb c sep) [
  | true ↦ some ([], s)
  | false ↦ elim (partition sep s) [ none ↦ none | some (a, b) ↦ some (c ∷ a, b) ]
]

-- `s.rpartition(sep)`: the cut is at the last occurrence
unfoldable pub rpartition : ℕ → Text → Option (Text × Text)
rpartition sep [] = none
rpartition sep (c ∷ s) = elim (rpartition sep s) [
  | some (a, b) ↦ some (c ∷ a, b)
  | none ↦ if eqb c sep then some ([], s) else none
]

-- `s in names`
unfoldable pub member : Text → List Text → Bool
unfolding text_eq
member s [] = false
member s (t ∷ names) = text_eq t s || member s names

-- `s <= t`, which compares code points
unfoldable pub text_leb : Text → Text → Bool
text_leb [] t = true
text_leb (a ∷ s) [] = false
text_leb (a ∷ s) (b ∷ t) = ltb a b || eqb a b && text_leb s t

-- `sorted(names)`
unfoldable pub insert_text : Text → List Text → List Text
unfolding text_leb
insert_text s [] = s ∷ []
insert_text s (t ∷ sorted) =
    let rest = insert_text s sorted in if text_leb s t then s ∷ t ∷ sorted else t ∷ rest

unfoldable pub sort_texts : List Text → List Text
unfolding insert_text
sort_texts [] = []
sort_texts (s ∷ names) = insert_text s (sort_texts names)
