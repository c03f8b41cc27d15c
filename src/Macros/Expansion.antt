-- ===== src/Macros/Expansion.antt =====
-- When the macro of crates/roos-macros/src/lib.rs expands, and with which names.
use roos.Base.{
  ◌≡◌, ◌≢◌, ◌⊎◌, Text, codes, Option, none, some, List, ◌∷◌, ◌++◌, All, Result, ok, err,
}
use roos.Macros.{
  is_required, struct_name, MetaNameValue, FnArg, ident, ItemFn, unwrap_or_default, unknown_key,
  Generated,
}

abbrev pub key_of : MetaNameValue → Text
key_of kv = unwrap_or_default kv.path

abbrev pub IsKnown : MetaNameValue → Type 0
IsKnown kv = (key_of kv ≡ codes "name") ⊎ (key_of kv ≡ codes "description")

-- No argument gives the key a string literal.
abbrev pub HasNone : Text → List MetaNameValue → Type 0
HasNone key args = All (λ kv. key_of kv ≡ key → kv.value ≡ none) args

-- The last string literal that the arguments give the key.
abbrev pub IsLast : Text → List MetaNameValue → Text → Type 0
IsLast key args v =
    (before : List MetaNameValue) × (kv : MetaNameValue) × (after : List MetaNameValue) × (args
      ≡ before ++ kv ∷ after)
    × (key_of kv ≡ key)
    × (kv.value ≡ some v)
    × HasNone key after

abbrev Found : Text → List MetaNameValue → Option Text → Option Text → Type 0
Found key args old new =
    ((v : Text) × (new ≡ some v) × IsLast key args v) ⊎ ((new ≡ old) × HasNone key args)

-- The arguments up to the first that is neither `name` nor `description`.
abbrev pub HasUnknown : List MetaNameValue → Text → Type 0
HasUnknown args key =
    (before : List MetaNameValue) × (kv : MetaNameValue) × (after : List MetaNameValue) × (args
      ≡ before ++ kv ∷ after)
    × All IsKnown before
    × (key_of kv ≡ key)
    × (key ≢ codes "name")
    × (key ≢ codes "description")

abbrev Scanned :
    List MetaNameValue
    → Option Text
    → Option Text
    → Result Text (Option Text × Option Text)
    → Type 0
Scanned args n d (ok (n', d')) =
    All IsKnown args × Found (codes "name") args n n' × Found (codes "description") args d d'
Scanned args n d (err e) = (key : Text) × HasUnknown args key × (e ≡ unknown_key key)

module _ {Y : Type 0} (to_uppercase : Text → Text) (args : List MetaNameValue)
    (func : ItemFn Y) where
  -- The ways in which the macro ends on arguments and a function that parse.
  pub data Outcome (r : Result Text (Generated Y)) : Type 0 where
    expanded :
        (name desc : Text) (y : Y) (rest : List (FnArg Y))
        → All IsKnown args
        → IsLast (codes "name") args name
        → IsLast (codes "description") args desc
        → func.inputs ≡ ident y ∷ rest
        → r
          ≡ ok (record {
            struct = struct_name to_uppercase func.name;
            name_lit = name;
            desc_lit = desc;
            func = func.name;
            input_type = y;
          })
        → Outcome r
    unknown : (key : Text) → HasUnknown args key → r ≡ err (unknown_key key) → Outcome r
    unnamed :
        All IsKnown args
        → HasNone (codes "name") args
        → r ≡ err (is_required (codes "name"))
        → Outcome r
    undescribed :
        (name : Text)
        → All IsKnown args
        → IsLast (codes "name") args name
        → HasNone (codes "description") args
        → r ≡ err (is_required (codes "description"))
        → Outcome r
    unfit :
        (name desc e : Text)
        → All IsKnown args
        → IsLast (codes "name") args name
        → IsLast (codes "description") args desc
        → ((y : Y) (rest : List (FnArg Y)) → func.inputs ≢ ident y ∷ rest)
        → r ≡ err e
        → Outcome r
