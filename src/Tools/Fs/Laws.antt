-- ===== src/Tools/Fs/Laws.antt =====
-- What the file tools of crates/roos-tools/src/fs.rs return and leave.
use mathlib.Core.List.{Permᴰ}
use roos.Base.{
  ◌≡◌, refl, ap, ◌∙◌, sym, inl, inr, ◌⊎◌, Text, codes, join, map, append_assoc, append-nil, List,
  [], ◌∷◌, ◌++◌, Result, ok, err, Result-cases,
}
use roos.Base.Order.{sort, IsSorted, sort-IsSorted, sort-perm}
use roos.Core.Tool.{execution_failed}
use roos.Tools.Fs.{Fs, ListDirectoryInput, list_directory_name, collect, listing, list_directory}

-- The entries, up to the first that is an error.
abbrev pub Entries : List (Result Text Text) → Type 0
Entries entries =
    ((names : List Text) × (entries ≡ map ok names))
    ⊎ ((source : Text) × (before : List Text) × (after : List (Result Text Text)) × (entries
          ≡ map ok before ++ err source ∷ after))

collect-outcome :
    (entries : List (Result Text Text)) (acc : List Text)
    → ((names : List Text) × (entries ≡ map ok names) × (collect entries acc ≡ ok (acc ++ names)))
      ⊎ ((source : Text) × (before : List Text) × (after : List (Result Text Text)) × (entries
            ≡ map ok before ++ err source ∷ after)
          × (collect entries acc ≡ err (execution_failed list_directory_name source)))
unfolding collect
collect-outcome [] acc = inl ([], refl, ap ok (sym (append-nil acc)))
collect-outcome (err e ∷ rest) acc = inr (e, [], rest, refl, refl)
collect-outcome (ok name ∷ rest) acc = elim (collect-outcome rest (acc ++ name ∷ [])) [
  | inl (names, all, made) ↦
      inl
        (name ∷ names, ap (λ l. ok name ∷ l) all, made ∙ ap ok (append_assoc acc (name ∷ []) names))
  | inr (source, before, after, there, made) ↦
      inr (source, name ∷ before, after, ap (λ l. ok name ∷ l) there, made)
]

module _ {W J : Type 0} (fs : Fs W) where
  -- What `list_directory` returns on a path. If the directory and all its entries can be read, it
  -- returns the names, each at most the next byte by byte, one on a line, every name as often as it
  -- is an entry; else the error of the directory or of the first entry that cannot be read.
  pub list_directory-outcome :
      (from_value : J → Result Text ListDirectoryInput) (inp : ListDirectoryInput) (j : J) (w : W)
      → from_value j ≡ ok inp
      → let (listed, w') = fs.read_dir inp.path w in
        let (r, w'') = list_directory fs from_value j w in
        (w'' ≡ w')
        × (((names sorted : List Text) × (listed ≡ ok (map ok names))
              × Permᴰ names sorted
              × IsSorted sorted
              × (r ≡ ok (join (codes "\n") sorted)))
            ⊎ ((source : Text) × (r ≡ err (execution_failed list_directory_name source))
                × ((listed ≡ err source)
                    ⊎ ((before : List Text) × (after : List (Result Text Text)) × (listed
                          ≡ ok (map ok before ++ err source ∷ after))))))
  unfolding list_directory listing
  list_directory-outcome from_value inp j w h = elim (Result-cases (fs.read_dir inp.path w).0) [
    | inl (entries, p) ↦ elim (collect-outcome entries []) [
      | inl (names, all, made) ↦
          rw (h, p, made)
            (refl, inl (names, sort names, ap ok all, sort-perm names, sort-IsSorted names, refl))
      | inr (source, before, after, there, made) ↦
          rw (h, p, made) (refl, inr (source, refl, inr (before, after, ap ok there)))
    ]
    | inr (e, p) ↦ rw (h, p) (refl, inr (e, refl, inl refl))
  ]
