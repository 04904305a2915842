-- ===== src/Languages/Groups.antt =====
-- Which files the groups of languages hold.
use my_pr_agent.Prelude.{
  ℕ, ◌≡◌, refl, subst, keep-append, inl, inr, Bool, Bool-cases, true, false, not, ◌&&◌, List, [],
  ◌∷◌, ◌++◌, arith, nat_eq, list_eq, list_beq_iff, ◌==◌, contains, contains-append, keep, leb,
  any_of, is_some,
}
use my_pr_agent.Dict.{Dict, get, put, get-put}
use my_pr_agent.Text.{Text}
use my_pr_agent.Patch.{FilePatchInfo}
use my_pr_agent.Pruning.Compressed.{Language}
use my_pr_agent.Languages.{
  is_valid_file, configured_bad, insert_language, extensions_of, FileSettings, extension_str,
  add_rest, values, group_languages, flatten, sort_files_by_main_languages, with_extensions,
  lower_keys, sort_languages,
}

-- A file of this name is in the list, or in one of the groups.
abbrev pub named : Text → List FilePatchInfo → Bool
named filename files = any_of (λ f. f.filename == filename) files

abbrev pub shown : Text → List Language → Bool
shown filename groups = any_of (λ g. named filename g.files) groups

-- Each file stands under its own name.
abbrev pub Keyed : Dict Text FilePatchInfo → Type 0
Keyed [] = Unit
Keyed ((k, f) ∷ m) = (f.filename ≡ k) × Keyed m

Keyed-put : (f : FilePatchInfo) (m : Dict Text FilePatchInfo) → Keyed m → Keyed (put f.filename f m)
unfolding put
Keyed-put f [] h = (refl, tt)
Keyed-put f ((k, g) ∷ m) (own, h) =
    ground (arith, list_beq_iff nat_eq k f.filename, Keyed-put f m h)

named-values :
    (filename : Text) (m : Dict Text FilePatchInfo)
    → Keyed m
    → is_some (get filename m) ≡ true
    → named filename (values m) ≡ true
unfolding get
named-values filename [] h found = cc
named-values filename ((k, g) ∷ m) (own, h) found = ground (arith, own, named-values filename m h)

named-append :
    (filename : Text) (xs ys : List FilePatchInfo)
    → named filename ys ≡ true
    → named filename (xs ++ ys) ≡ true
named-append filename [] ys h = h
named-append filename (x ∷ xs) ys h = ground (arith, named-append filename xs ys h)

named-keep :
    (p : FilePatchInfo → Bool) (xs ys : List FilePatchInfo) (f : FilePatchInfo)
    → p f ≡ true
    → named f.filename (keep p (xs ++ f ∷ ys)) ≡ true
named-keep p [] ys f h = ground (arith, h, list_beq_iff nat_eq f.filename f.filename)
named-keep p (x ∷ xs) ys f h = ground (arith, named-keep p xs ys f h)

module _ (flat : List Text) where
  add_rest-Keyed :
      (extensions : List Text) (files : List FilePatchInfo) (rest : Dict Text FilePatchInfo)
      → Keyed rest
      → Keyed (add_rest extensions flat files rest)
  unfolding add_rest
  add_rest-Keyed extensions [] rest h = h
  add_rest-Keyed extensions (f ∷ files) rest h =
      elim (Bool-cases (
        not (contains extensions (extension_str f))
        && not (is_some (get f.filename rest))
        && not (contains flat (extension_str f)))) [
          | inl new ↦
              rw new (add_rest-Keyed extensions files (put f.filename f rest) (Keyed-put f rest h))
          | inr old ↦ rw old (add_rest-Keyed extensions files rest h)
        ]

  -- What has a file keeps one.
  add_rest-keeps :
      (extensions : List Text) (files : List FilePatchInfo) (rest : Dict Text FilePatchInfo)
      (filename : Text)
      → is_some (get filename rest) ≡ true
      → is_some (get filename (add_rest extensions flat files rest)) ≡ true
  unfolding add_rest
  add_rest-keeps extensions [] rest filename h = h
  add_rest-keeps extensions (f ∷ files) rest filename h = ground (
    arith,
    get-put f.filename filename f rest,
    add_rest-keeps extensions files (put f.filename f rest) filename,
    add_rest-keeps extensions files rest filename h,
  )

  -- A file with an extension of no language has a file of its name among the rest.
  add_rest-covers :
      (extensions : List Text) (xs ys : List FilePatchInfo) (f : FilePatchInfo)
      (rest : Dict Text FilePatchInfo)
      → contains flat (extension_str f) ≡ false
      → contains extensions (extension_str f) ≡ false
      → is_some (get f.filename (add_rest extensions flat (xs ++ f ∷ ys) rest)) ≡ true
  unfolding add_rest
  add_rest-covers extensions [] ys f rest other_ext no_ext = ground (
    arith,
    get-put f.filename f.filename f rest,
    list_beq_iff nat_eq f.filename f.filename,
    add_rest-keeps extensions ys (put f.filename f rest) f.filename,
    add_rest-keeps extensions ys rest f.filename,
  )
  add_rest-covers extensions (x ∷ xs) ys f rest other_ext no_ext = ground (
    arith,
    add_rest-covers extensions xs ys f (put x.filename x rest) other_ext no_ext,
    add_rest-covers extensions xs ys f rest other_ext no_ext,
  )

  -- A name that the rest has is shown in the last group.
  shown-rest :
      (files : List FilePatchInfo) (langs : List (Text × List Text))
      (rest : Dict Text FilePatchInfo) (filename : Text)
      → Keyed rest
      → is_some (get filename rest) ≡ true
      → shown filename (group_languages flat files langs rest) ≡ true
  unfolding group_languages
  shown-rest files [] rest filename keyed found =
      ground (arith, named-values filename rest keyed found)
  shown-rest files ((lang, extensions) ∷ langs) rest filename keyed found =
      let later =
        shown-rest files langs (add_rest extensions flat files rest) filename
          (add_rest-Keyed extensions files rest keyed)
          (add_rest-keeps extensions files rest filename found) in
      ground (arith, later)

  shown-language :
      (xs ys : List FilePatchInfo) (f : FilePatchInfo) (langs : List (Text × List Text))
      (rest : Dict Text FilePatchInfo)
      → contains (flatten langs) (extension_str f) ≡ true
      → shown f.filename (group_languages flat (xs ++ f ∷ ys) langs rest) ≡ true
  unfolding group_languages
  shown-language xs ys f [] rest h = cc
  shown-language xs ys f ((lang, extensions) ∷ langs) rest h =
      let files = xs ++ f ∷ ys in
      let later = shown-language xs ys f langs (add_rest extensions flat files rest) in
      elim (Bool-cases (contains extensions (extension_str f))) [
        | inl here ↦ ground (
          arith,
          here,
          named-keep (λ file. contains extensions (extension_str file)) xs ys f here,
        )
        | inr elsewhere ↦
            ground (
              arith,
              elsewhere,
              later,
              contains-append extensions (flatten langs) (extension_str f),
            )
      ]

  shown-group :
      (xs ys : List FilePatchInfo) (f : FilePatchInfo) (lang : Text) (extensions : List Text)
      (langs : List (Text × List Text))
      → flat ≡ flatten ((lang, extensions) ∷ langs)
      → shown f.filename (group_languages flat (xs ++ f ∷ ys) ((lang, extensions) ∷ langs) [])
        ≡ true
  unfolding group_languages
  shown-group xs ys f lang extensions langs same =
      let files = xs ++ f ∷ ys in
      let all = (lang, extensions) ∷ langs in
      elim (Bool-cases (contains flat (extension_str f))) [
        | inl has ↦
            shown-language xs ys f all []
              (subst (λ t. contains t (extension_str f) ≡ true) same has)
        | inr hasnt ↦
            let not_here : contains extensions (extension_str f) ≡ false =
              ground (
                arith,
                hasnt,
                same,
                contains-append extensions (flatten langs) (extension_str f),
              ) in
            let rest = add_rest extensions flat files [] in
            let later =
              shown-rest files langs rest f.filename (add_rest-Keyed extensions files [] tt)
                (add_rest-covers extensions xs ys f [] hasnt not_here) in
            ground (arith, later)
      ]

shown-sorted :
    (extension_map : Dict Text (List Text)) (l : Text × ℕ) (ms : List (Text × ℕ))
    (xs ys : List FilePatchInfo) (f : FilePatchInfo)
    → let langs = with_extensions extension_map (insert_language l ms) in
      shown f.filename (group_languages (flatten langs) (xs ++ f ∷ ys) langs []) ≡ true
unfolding insert_language
shown-sorted em (lang, size) [] xs ys f =
    shown-group (flatten (with_extensions em ((lang, size) ∷ []))) xs ys f lang
      (extensions_of em lang) [] refl
shown-sorted em (lang, size) ((lang', size') ∷ ms) xs ys f =
    let group = λ (name : Text) (langs : List (Text × ℕ)).
      shown-group (flatten ((name, extensions_of em name) ∷ with_extensions em langs)) xs ys f name
        (extensions_of em name) (with_extensions em langs) refl in
    elim (Bool-cases (leb size' size)) [
      | inl le ↦ rw (le, insert_language) (group lang ((lang', size') ∷ ms))
      | inr gt ↦ rw (gt, insert_language) (group lang' (insert_language (lang, size) ms))
    ]

keep-middle :
    (p : FilePatchInfo → Bool) (xs ys : List FilePatchInfo) (f : FilePatchInfo)
    → p f ≡ true
    → keep p (xs ++ f ∷ ys) ≡ keep p xs ++ f ∷ keep p ys
keep-middle p xs ys f h = ground (arith, keep-append p xs (f ∷ ys), h)

-- Every valid file of a pull request is shown: some group of the result has a file of its name.
pub sort_files-shows :
    (settings : FileSettings) (languages : Dict Text ℕ) (xs ys : List FilePatchInfo)
    (f : FilePatchInfo)
    → is_valid_file settings f.filename (configured_bad settings) ≡ true
    → shown f.filename (sort_files_by_main_languages settings languages (xs ++ f ∷ ys)) ≡ true
unfolding sort_files_by_main_languages sort_languages
sort_files-shows settings [] xs ys f valid = ground (
  arith,
  named-keep (λ g. is_valid_file settings g.filename (configured_bad settings)) xs ys f valid,
)
sort_files-shows settings (l ∷ languages) xs ys f valid =
    let p = λ (g : FilePatchInfo). is_valid_file settings g.filename (configured_bad settings) in
    rw (keep-middle p xs ys f valid) (
      shown-sorted (lower_keys settings.language_extension_map_org []) l (sort_languages languages)
        (keep p xs) (keep p ys) f)
