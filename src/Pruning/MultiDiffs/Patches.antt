-- ===== src/Pruning/MultiDiffs/Patches.antt =====
-- One patch in the loop of `get_pr_multi_diffs`: what it does to the size of the diffs.
use my_pr_agent.Prelude.{
  ℕ, ◌+◌, ◌≤◌, ◌≡◌, refl, ◌⊎◌, inl, inr, Bool, Bool-cases, true, false, not, ◌&&◌, ◌||◌, List, [],
  ◌∷◌, ◌++◌, length, length-append, All, All-append, arith, Held,
}
use my_pr_agent.Text.{Text, newline, is_empty, strip, join}
use my_pr_agent.Pruning.{soft_threshold}
use my_pr_agent.Pruning.Clip.{clip_tokens}
use my_pr_agent.Pruning.MultiDiffs.{
  MultiSettings, LargePatchPolicy, skip, clip, unknown_policy, too_many, fit_large, tokens_left,
  fit_patch, Chunking, make_room, append_patch,
}

-- The tokens of the patches, each counted alone.
abbrev pub cost : (Text → ℕ) → List Text → ℕ
cost count [] = 0
cost count (p ∷ ps) = count p + cost count ps

pub cost-append :
    (count : Text → ℕ) (ps qs : List Text) → cost count (ps ++ qs) ≡ cost count ps + cost count qs
cost-append count [] qs = omega arith
cost-append count (p ∷ ps) qs = omega (arith, cost-append count ps qs)

abbrev pub HasRoom : MultiSettings → ℕ → Type 0
HasRoom settings tokens = tokens + soft_threshold ≤ settings.max_tokens

-- A diff of at least one patch that leaves the soft threshold free beside the prompt.
pub record IsPart (settings : MultiSettings) (diff : Text) : Type 0 where
  pub patches : List Text
  pub some_patch : is_empty patches ≡ false
  pub within :
      HasRoom settings (settings.handler.prompt_tokens + cost settings.handler.count_tokens patches)
  pub text : (diff ≡ join (newline ∷ []) patches) ⊎ (diff ≡ strip (join (newline ∷ []) patches))

abbrev pub one_if : Bool → ℕ
one_if true = 1
one_if false = 0

pub record Chunked (settings : MultiSettings) (s : Chunking) : Type 0 where
  pub total :
      s.total_tokens ≡ settings.handler.prompt_tokens + cost settings.handler.count_tokens s.patches
  pub room : (is_empty s.patches ≡ true) ⊎ HasRoom settings s.total_tokens
  pub parts : All (IsPart settings) s.final_diff_list
  pub calls : length s.final_diff_list + 1 ≡ s.call_number
  pub bound : length s.final_diff_list + one_if (not (is_empty s.patches)) ≤ settings.max_calls

cost-empty : (count : Text → ℕ) (ps : List Text) → is_empty ps ≡ true → cost count ps ≡ 0
cost-empty count [] h = refl
cost-empty count (p ∷ ps) h = cc

is_empty-snoc : (ps : List Text) (p : Text) → is_empty (ps ++ p ∷ []) ≡ false
is_empty-snoc [] p = refl
is_empty-snoc (q ∷ ps) p = refl

module _ (settings : MultiSettings) where
  abbrev pub count : Text → ℕ
  count = settings.handler.count_tokens

  abbrev pub prompt : ℕ
  prompt = settings.handler.prompt_tokens

  -- The patch is empty, or fits with that many tokens.
  abbrev pub Goes : Text → ℕ → Type 0
  Goes patch tokens = (is_empty patch ≡ true) ⊎ HasRoom settings (tokens + count patch)

  goes :
      (patch : Text) (tokens : ℕ)
      → (not (is_empty patch) && too_many settings (tokens + count patch)) ≡ false
      → Goes patch tokens
  goes patch tokens h = elim (Bool-cases (is_empty patch)) [
    | inl none_left ↦ inl none_left
    | inr filled ↦ inr (ground (arith, h, filled))
  ]

  fit_large-Goes :
      (policy : LargePatchPolicy) (clipped : Text)
      → Held (λ fitting. Goes fitting prompt) (fit_large policy settings clipped)
  unfolding fit_large
  fit_large-Goes skip clipped = tt
  fit_large-Goes clip clipped =
      elim (Bool-cases (not (is_empty clipped) && too_many settings (prompt + count clipped))) [
        | inl large ↦ rw (large, fit_large) tt
        | inr fits ↦ rw (fits, fit_large) (goes clipped prompt fits)
      ]
  fit_large-Goes unknown_policy clipped = tt

  -- A patch that goes on is empty or fits beside the prompt.
  pub fit_patch-Goes :
      (patch : Text) → Held (λ fitting. Goes fitting prompt) (fit_patch settings patch)
  unfolding fit_patch
  fit_patch-Goes patch =
      elim (Bool-cases (not (is_empty patch) && too_many settings (prompt + count patch))) [
        | inr fits ↦ rw (fits, fit_patch) (goes patch prompt fits)
        | inl large ↦
            rw (large, fit_patch)
              (fit_large-Goes settings.large_patch_policy (
                clip_tokens settings.output_chars patch (tokens_left settings) (count patch) true
                  true))
      ]

  -- There is a patch in a diff that is closed, since a patch alone would have gone on.
  closed-filled :
      (patch : Text) (s : Chunking)
      → Goes patch prompt
      → Chunked settings s
      → (not (is_empty patch) && too_many settings (s.total_tokens + count patch)) ≡ true
      → is_empty s.patches ≡ false
  closed-filled patch s fits h full = elim (Bool-cases (is_empty s.patches)) [
    | inr filled ↦ filled
    | inl empty ↦ ground (arith, fits, full, h.total, cost-empty count s.patches empty)
  ]

  pub make_room-Chunked :
      (patch : Text) (s : Chunking)
      → Goes patch prompt
      → Chunked settings s
      → Chunked settings (make_room settings patch s)
        × Goes patch (make_room settings patch s).total_tokens
  unfolding make_room
  make_room-Chunked patch s fits h =
      let diff = join (newline ∷ []) s.patches in
      elim (Bool-cases (not (is_empty patch) && too_many settings (s.total_tokens + count patch))) [
        | inr room ↦ rw (room, make_room) (h, goes patch s.total_tokens room)
        | inl full ↦
            let filled = closed-filled patch s fits h full in
            rw (full, make_room)
              (
                record {
                  total = ground arith;
                  room = inl refl;
                  parts = All-append (IsPart settings) s.final_diff_list (diff ∷ []) h.parts (
                    record {
                      patches = s.patches;
                      some_patch = filled;
                      within = ground (arith, h.room, h.total, filled);
                      text = inl refl;
                    },
                    tt,
                  );
                  calls = ground (arith, h.calls, length-append s.final_diff_list (diff ∷ []));
                  bound =
                      ground (arith, h.bound, filled, length-append s.final_diff_list (diff ∷ []));
                },
                fits,
              )
      ]

  -- If the loop is not stopped there is room for one more diff.
  pub append_patch-Chunked :
      (patch : Text) (s : Chunking)
      → Goes patch s.total_tokens
      → (s.stopped ≡ true) ⊎ (s.call_number ≤ settings.max_calls)
      → Chunked settings s
      → Chunked settings (append_patch settings patch s)
  unfolding append_patch
  append_patch-Chunked patch s fits more h = elim (Bool-cases (s.stopped || is_empty patch)) [
    | inl over ↦ rw (over, append_patch) h
    | inr goes_on ↦
        rw (goes_on, append_patch)
          (record {
            total = ground (arith, h.total, cost-append count s.patches (patch ∷ []));
            room = ground (arith, fits, goes_on);
            parts = h.parts;
            calls = h.calls;
            bound = ground (arith, more, goes_on, h.calls, is_empty-snoc s.patches patch);
          })
  ]

  -- Room is left after `make_room`, or the loop is stopped.
  pub make_room-more :
      (patch : Text) (s : Chunking)
      → s.call_number ≤ settings.max_calls
      → ((make_room settings patch s).stopped ≡ true)
        ⊎ ((make_room settings patch s).call_number ≤ settings.max_calls)
  unfolding make_room
  make_room-more patch s low = ground (arith, low)
