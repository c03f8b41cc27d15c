-- ===== src/Cli/New/Template.antt =====
-- The configuration that crates/roos-cli/src/cmd/new.rs writes, as crates/roos-core/src/config.rs reads
-- it.
use roos.Base.{
  ◌≡◌, refl, ap, ◌∙◌, sym, arith, Text, codes, find, strip_prefix, Option, none, some, [], ◌∷◌,
  ◌++◌, append_assoc, Result, ok, err,
}
use roos.Core.Config.{ConfigError, missing_env_var, interpolate_env_vars}
use roos.Core.Config.Complete.{interpolate-render}
use roos.Core.Config.Templates.{render, expand, expand_value}
use roos.Cli.New.{before_name, behind_name, roos_toml}

-- What stands between the name and the placeholder, and behind it.
unfoldable pub between : Text
unfolding codes
between =
    codes
      "\"\ndescription = \"A ROOS agent\"\nmax_steps = 10\n\n[provider]\ntype = \"anthropic\"\nmodel = \"claude-sonnet-4-6\"\napi_key = \""

unfoldable pub at_end : Text
unfolding codes
at_end = codes "\"\n"

abbrev pub key_name : Text
unfolding codes
key_name = codes "ANTHROPIC_API_KEY"

-- The file with the value of the key in it, or the error if there is none.
abbrev pub with_key : Text → Option Text → Result ConfigError Text
with_key name none = err (missing_env_var key_name)
with_key name (some key) = ok (before_name ++ (name ++ (between ++ (key ++ at_end))))

find-append :
    (l r : Text)
    → find (codes "${") l ≡ none
    → find (codes "${") (34 ∷ r) ≡ none
    → find (codes "${") (l ++ (34 ∷ r)) ≡ none
unfolding find strip_prefix codes
find-append [] r h k = k
find-append (c ∷ []) r h k = ground (arith, k)
find-append (c ∷ d ∷ l) r h k = ground (arith, find-append (d ∷ l) r)

start-find :
    (name : Text)
    → find (codes "${") (name ++ between) ≡ none
    → find (codes "${") (before_name ++ (name ++ between)) ≡ none
unfolding before_name find strip_prefix codes
start-find name h = ground (arith, h)

-- The file is a template with one placeholder.
roos_toml-render :
    (name : Text)
    → roos_toml name ≡ render ((before_name ++ (name ++ between), key_name) ∷ []) at_end
unfolding roos_toml render behind_name between at_end codes
roos_toml-render name =
    ap (λ t. before_name ++ t) (sym (append_assoc name between (codes "${ANTHROPIC_API_KEY}\"\n")))
    ∙ sym (append_assoc before_name (name ++ between) (codes "${ANTHROPIC_API_KEY}\"\n"))

expand-with_key :
    (name : Text) (env : Text → Option Text) (o : Option Text)
    → expand_value (before_name ++ (name ++ between)) key_name (ok at_end) o ≡ with_key name o
expand-with_key name env none = refl
expand-with_key name env (some key) = ap ok (
    append_assoc (before_name ++ (name ++ between)) key at_end
    ∙ append_assoc before_name (name ++ between) (key ++ at_end)
    ∙ ap (λ t. before_name ++ t) (append_assoc name between (key ++ at_end)))

-- The file that `roos new` writes for a name without `${` is read with the value of
-- `ANTHROPIC_API_KEY` in place of its placeholder and with the name as it is, or, if that variable is
-- not set, is refused with the error that names it.
roos_toml-interpolated :
    (env : Text → Option Text) (name : Text)
    → find (codes "${") name ≡ none
    → interpolate_env_vars env (roos_toml name) ≡ some (with_key name (env key_name))
unfolding expand find strip_prefix codes between at_end
roos_toml-interpolated env name h = rw (roos_toml-render name) (
    interpolate-render env ((before_name ++ (name ++ between), key_name) ∷ []) at_end
      ((start-find name (find-append name _ h refl), refl), tt) refl
    ∙ ap some (expand-with_key name env (env key_name)))
