-- ===== src/Examples/Configuration.antt =====
-- The interpolation of short texts.
use roos.Base.{
  ◌≡◌, refl, Text, codes, find, ◌++◌, Option, none, some, List, [], ◌∷◌, ok, err, text_eq,
  if◌then◌else◌,
}
use roos.Core.Config.{interpolate_env_vars, malformed_placeholder}
use roos.Core.Config.Templates.{Part, render, expand}
use roos.Core.Config.Complete.{interpolate-render, interpolate-open}
use roos.Core.Config.Decompose.{Interpolates, interpolate-total}

abbrev env : Text → Option Text
env name = if text_eq name (codes "KEY") then some (codes "abc") else none

abbrev parts : List Part
parts = (codes "k=", codes "KEY") ∷ []

interpolate-total_example : Interpolates env (codes "k=${KEY}, ${")
interpolate-total_example = interpolate-total env (codes "k=${KEY}, ${")

interpolate-render_example :
    interpolate_env_vars env (render parts (codes "!")) ≡ some (expand env parts (ok (codes "!")))
unfolding find codes
interpolate-render_example = interpolate-render env parts (codes "!") ((refl, refl), tt) refl

interpolate-open_example :
    interpolate_env_vars env (render parts (codes "!" ++ (codes "${" ++ codes "X")))
    ≡ some (expand env parts (err (malformed_placeholder 9)))
unfolding find codes render
interpolate-open_example =
    interpolate-open env parts (codes "!") (codes "X") ((refl, refl), tt) refl refl
