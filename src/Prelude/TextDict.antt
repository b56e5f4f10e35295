-- ===== src/Prelude/TextDict.antt =====
-- Python's `dict` with texts as keys, as a list of pairs in insertion order: a new key goes to the
-- end, and a write to a key that is there keeps its place.
use mathlib.Core.Path.{◌≡◌, refl}
use mathlib.Core.Option.{Option, none, some}
use mathlib.Core.List.{List, [], ◌∷◌}
use native.Mathlib.Omega.{arith}
use slayer.Prelude.Tests.{if◌then◌else◌}
use slayer.Prelude.Text.{Text, text_eq, text_eq_iff}

abbrev pub TextDict {ℓ} : Type ℓ → Type ℓ
TextDict V = List (Text × V)

-- `d.get(k)`
unfoldable pub lookup {ℓ} : {V : Type ℓ} → TextDict V → Text → Option V
unfolding text_eq
lookup [] key = none
lookup ((first, held) ∷ d) key =
    let found = lookup d key in if text_eq first key then some held else found

-- `d[k] = v`
unfoldable pub assign {ℓ} : {V : Type ℓ} → TextDict V → Text → V → TextDict V
unfolding text_eq
assign [] key new = (key, new) ∷ []
assign ((first, held) ∷ d) key new =
    let written = assign d key new in
    if text_eq first key then (first, new) ∷ d else (first, held) ∷ written

-- `d.pop(k, None)`
unfoldable pub discard {ℓ} : {V : Type ℓ} → TextDict V → Text → TextDict V
unfolding text_eq
discard [] key = []
discard ((first, held) ∷ d) key =
    let kept = discard d key in if text_eq first key then kept else (first, held) ∷ kept

pub lookup-assign {ℓ} :
    {V : Type ℓ} (new : V) (key asked : Text) (d : TextDict V)
    → lookup (assign d key new) asked ≡ (if text_eq key asked then some new else lookup d asked)
unfolding lookup assign
lookup-assign new key asked [] = refl
lookup-assign new key asked ((first, held) ∷ d) = ground (
  arith,
  lookup-assign new key asked d,
  text_eq_iff first key,
  text_eq_iff first asked,
  text_eq_iff key asked,
)

pub lookup-discard {ℓ} :
    {V : Type ℓ} (key asked : Text) (d : TextDict V)
    → lookup (discard d key) asked ≡ (if text_eq key asked then none else lookup d asked)
unfolding lookup discard
lookup-discard key asked [] = ground arith
lookup-discard key asked ((first, held) ∷ d) = ground (
  arith,
  lookup-discard key asked d,
  text_eq_iff first key,
  text_eq_iff first asked,
  text_eq_iff key asked,
)
