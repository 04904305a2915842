-- ===== src/CliArgs/Refusal.antt =====
-- Which arguments are refused.
use my_pr_agent.Prelude.{
  sym, not, ◌⊎◌, is_some, ◌≡◌, refl, inl, inr, Bool, Bool-cases, Option-cases, true, false, List,
  [], ◌∷◌, none, some, contains, any_of, nat_eq, list_eq, list_beq_iff, ◌&&◌, arith,
}
use my_pr_agent.Text.{Text, codes, starts_with, has_part, lower}
use my_pr_agent.CliArgs.{forbidden_cli_args, dotted, first_part, refused, validate_user_args}

-- An option that has a forbidden word in it, in lower case and with dots for double underscores.
abbrev pub is_forbidden : Text → Bool
is_forbidden arg =
    starts_with (codes "--") arg
    && any_of (λ word. has_part word (dotted (lower arg))) forbidden_cli_args

first_part-any :
    (words : List Text) (arg_word : Text)
    → first_part words arg_word ≡ none
    → any_of (λ word. has_part word arg_word) words ≡ false
unfolding first_part
first_part-any [] arg_word h = refl
first_part-any (word ∷ words) arg_word h = ground (arith, first_part-any words arg_word)

first_part-found :
    (words : List Text) (arg_word found : Text)
    → first_part words arg_word ≡ some found
    → (any_of (λ word. has_part word arg_word) words ≡ true)
      × (contains words found ≡ true)
      × (has_part found arg_word ≡ true)
unfolding first_part
first_part-found [] arg_word found h = cc
first_part-found (word ∷ words) arg_word found h = elim (Bool-cases (has_part word arg_word)) [
  | inl here ↦ ground (arith, here, list_beq_iff nat_eq word found)
  | inr later ↦ ground (arith, later, first_part-found words arg_word found)
]

-- Of one argument: there is a word exactly if it is forbidden, and the word is one of those.
refused_lem :
    (arg : Text)
    → (is_some (refused arg) ≡ is_forbidden arg)
      × ((word : Text) → refused arg ≡ some word → contains forbidden_cli_args word ≡ true)
unfolding refused
refused_lem arg = elim (Bool-cases (starts_with (codes "--") arg)) [
  | inr plain ↦ rw (plain, refused) (refl, λ word e. ground (arith, e))
  | inl option ↦
      let low = dotted (lower arg) in
      elim (Option-cases (first_part forbidden_cli_args low)) [
        | inl nothing ↦
            rw (option, nothing, refused)
              (sym (first_part-any forbidden_cli_args low nothing), λ word e. ground (arith, e))
        | inr (found, e) ↦
            let (has, listed, part) = first_part-found forbidden_cli_args low found e in
            rw (option, e, refused) (sym has, λ word same. ground (arith, same, listed))
      ]
]

-- The arguments are accepted exactly if none of them is forbidden, and a refusal names one of the
-- forbidden words.
pub validate_user_args-refuses :
    (args : List Text)
    → ((validate_user_args args).0 ≡ not (any_of is_forbidden args))
      × (((validate_user_args args).0 ≡ true)
          ⊎ (contains forbidden_cli_args (validate_user_args args).1 ≡ true))
unfolding validate_user_args
validate_user_args-refuses [] = (refl, inl refl)
validate_user_args-refuses (arg ∷ args) =
    let (same, listed) = refused_lem arg in
    elim (Option-cases (refused arg)) [
      | inl accepted ↦ ground (arith, accepted, same, validate_user_args-refuses args)
      | inr (word, e) ↦ ground (arith, e, same, listed word e)
    ]
