-- ===== src/Examples/Files.antt =====
-- The built-in tools on a file system that is an association list, and the table of the agents.
use roos.Base.{
  ◌≡◌, refl, Text, text_Eq, codes, Option, none, some, [], ◌∷◌, map, Result, ok, err, ◌⊎◌,
}
use roos.Base.Dict
use roos.Base.Dict.{Dict, get-insert}
use roos.Tools.Fs.{Fs, list_directory}
use roos.Tools.Fs.Laws.{list_directory-outcome}
use roos.Tools.Web.{Value, summary}
use roos.Tools.Web.Summaries.{HasAbstract, HasTopic, summary-outcome}

abbrev World : Type 0
World = Dict Text Text

abbrev read_of : Option Text → Result Text Text
read_of none = err (codes "no such file")
read_of (some content) = ok content

abbrev fs : Fs World
fs = record {
  read_to_string = λ path w. (read_of (Dict.get w path), w);
  write = λ path content w. (ok tt, Dict.insert w path content);
  read_dir = λ path w. (ok (map (λ (p, c). ok p) w), w);
}

abbrev two_files : World
two_files = (codes "b", codes "hello") ∷ (codes "a", codes "x") ∷ []

list_directory-outcome_example :
    (list_directory fs (λ (j : Text). ok (record { path = j })) (codes ".") two_files).1 ≡ two_files
list_directory-outcome_example =
    (list_directory-outcome fs (λ j. ok (record { path = j })) (record { path = codes "." })
      (codes ".") two_files refl).0

-- A value is a text, or an object or array of which nothing is found.
abbrev value : Value Text
value = record { get = λ v key. some v; as_str = some; as_array = λ v. none }

summary-outcome_example :
    ((t : Text) × HasAbstract value (codes "x") t × (summary value (codes "x") ≡ t))
    ⊎ (((t : Text) → ¬ HasAbstract value (codes "x") t)
        × (((t : Text) × HasTopic value (codes "x") t × (summary value (codes "x") ≡ t))
            ⊎ (((t : Text) → ¬ HasTopic value (codes "x") t)
                × (summary value (codes "x") ≡ codes "No results found."))))
summary-outcome_example = summary-outcome value (codes "x")
