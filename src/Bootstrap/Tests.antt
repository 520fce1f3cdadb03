-- ===== src/Bootstrap/Tests.antt =====
-- The theorems on the download and the archive at concrete inputs, and runs of them.
use hyperfleet_controller.Base.{
  ◌↔◌, ◌⊎◌, text, ◌==◌, ◌≡◌, ◌≢◌, refl, false, true, none, [], ◌∷◌, All, has_prefix, Emits, Err,
  deferring,
}
use hyperfleet_controller.Path.{clean, dot_dot, join, IsNormal, is_rooted}
use hyperfleet_controller.Bootstrap.System.{perform}
use hyperfleet_controller.Bootstrap.Samples.{base, folder, script, climbing, healthy, broken}
use hyperfleet_controller.Bootstrap.Archive.{extract, is_refused}
use hyperfleet_controller.Bootstrap.Archive.Safety.{IsContained, extract-IsContained}
use hyperfleet_controller.Bootstrap.Archive.Balance.{IsBalanced, extract-IsBalanced}
use hyperfleet_controller.Bootstrap.Archive.Complete.{
  all_placed, extract-all_placed, extract-refused,
}
use hyperfleet_controller.Path.Within.{Within}
use hyperfleet_controller.Bootstrap.Archive.Exact.{is_refused-exact}
use hyperfleet_controller.Bootstrap.Archive.Limits.{escaping, is_refused-escaping}

-- The names that leave the installation path are refused, others are not.
climbing_is_refused : is_refused base climbing.name ≡ true
unfolding is_refused join text ◌==◌ has_prefix
climbing_is_refused = refl

script_is_not_refused : is_refused base script.name ≡ false
unfolding is_refused join text ◌==◌ has_prefix
script_is_not_refused = refl

base-is_rooted : is_rooted base ≡ true
unfolding is_rooted text
base-is_rooted = refl

extract-IsContained_example :
    Emits (IsContained (clean base)) (extract healthy base (folder ∷ script ∷ climbing ∷ []) none)
extract-IsContained_example =
    extract-IsContained base base-is_rooted healthy (folder ∷ script ∷ climbing ∷ []) none

extract-IsBalanced_example : IsBalanced (extract broken base (folder ∷ script ∷ []) none)
extract-IsBalanced_example = extract-IsBalanced broken base (folder ∷ script ∷ []) none

extracted : (extract healthy base (folder ∷ script ∷ []) none []).0 ≡ none
unfolding extract join text ◌==◌ has_prefix deferring perform
extracted = refl

extract-all_placed_example :
    let end : Err = none in
    (end ≡ none)
    × All (λ header. is_refused base header.name ≡ false) (folder ∷ script ∷ [])
    × ((extract healthy base (folder ∷ script ∷ []) none []).1
        ≡ all_placed base (folder ∷ script ∷ []) [])
extract-all_placed_example =
    extract-all_placed healthy base (folder ∷ script ∷ []) none [] extracted

extract-refused_example :
    ((extract healthy base (folder ∷ climbing ∷ script ∷ []) none []).0 ≢ none)
    × ((extract healthy base (folder ∷ climbing ∷ script ∷ []) none []).1
        ≡ (extract healthy base (folder ∷ []) none []).1)
extract-refused_example =
    extract-refused healthy base (folder ∷ []) climbing (script ∷ []) none [] climbing_is_refused

x-IsNormal : IsNormal (text "x")
unfolding text ◌==◌
x-IsNormal = record { no_slash = (refl, tt); not_empty = refl; not_dot = refl; not_dot_dot = refl }

is_refused-escaping_example :
    (is_refused dot_dot (escaping (text "x")) ≡ false)
    × (join dot_dot (escaping (text "x")) ≡ escaping (escaping (text "x")))
is_refused-escaping_example = is_refused-escaping (text "x") x-IsNormal

is_refused-exact_example :
    (is_refused base script.name ≡ false)
    ↔ ((script.name ≡ text "./") ⊎ Within (clean base) (join base script.name))
is_refused-exact_example = is_refused-exact base script.name base-is_rooted
