-- ===== src/Base/Sets.antt =====
-- `Set` of texts: a list in insertion order, read through `has`.
use mathlib.Core.Path.{◌≡◌}
use mathlib.Core.Bool.{Bool, true, false, ◌||◌}
use mathlib.Core.List.{List, [], ◌∷◌}
use native.Mathlib.Omega.{arith}
use argos_career.Base.Tests.{if◌then◌else◌}
use argos_career.Base.Strings.{Text, same, same_iff}

unfoldable pub has : List Text → Text → Bool
has [] k = false
has (j ∷ s) k = same j k || has s k

unfoldable pub include : List Text → Text → List Text
include [] k = k ∷ []
include (j ∷ s) k = if same j k then j ∷ s else j ∷ include s k

unfoldable pub exclude : List Text → Text → List Text
exclude [] k = []
exclude (j ∷ s) k = if same j k then exclude s k else j ∷ exclude s k

pub has-include :
    (s : List Text) (k j : Text) → has (include s k) j ≡ (if same k j then true else has s j)
unfolding has include
has-include [] k j = ground arith
has-include (i ∷ s) k j =
    ground (arith, same_iff k j, same_iff i k, same_iff i j, has-include s k j)

pub has-exclude :
    (s : List Text) (k j : Text) → has (exclude s k) j ≡ (if same k j then false else has s j)
unfolding has exclude
has-exclude [] k j = ground arith
has-exclude (i ∷ s) k j =
    ground (arith, same_iff k j, same_iff i k, same_iff i j, has-exclude s k j)
