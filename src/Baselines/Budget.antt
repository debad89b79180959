-- ===== src/Baselines/Budget.antt =====
-- `build_few_shot_prompt_with_budget`: examples are dropped from the end until the prompt fits.
use rule_kiln.Prelude.{
  ℕ, zero, suc, ◌≤◌, ◌<◌, ◌≡◌, ◌⊎◌, refl, ap, subst, ltb, ltb→lt, false, List, [], ◌∷◌, String,
  length, take, leb, leb→le, if◌then◌else◌, Bool-cases, inl, inr, arith, decimal,
}
use rule_kiln.Pruning.Prune.{count_tokens_approx}
use rule_kiln.PromptCompiler.Sections.{◌+++◌, join}
use rule_kiln.Baselines.Examples.{TrainCase}

abbrev pub example_block : ℕ → TrainCase → String
example_block index c = join "\n" (
    ("### Example " +++ decimal index)
    ∷ "Input:"
    ∷ "```json"
    ∷ c.input_json
    ∷ "```"
    ∷ "Output:"
    ∷ "```json"
    ∷ c.output_json
    ∷ "```"
    ∷ [])

-- `enumerate(examples, start)`, rendered.
unfoldable pub blocks_from : ℕ → List TrainCase → List String
unfolding join decimal
blocks_from n [] = []
blocks_from n (c ∷ cs) = example_block n c ∷ blocks_from (suc n) cs

unfoldable pub render_few_shot_examples : List TrainCase → String
unfolding blocks_from join
render_few_shot_examples examples = join "\n\n" (blocks_from 1 examples)

unfoldable pub few_shot_prompt : String → List TrainCase → String
unfolding render_few_shot_examples
few_shot_prompt baseline examples =
    baseline
    +++ "\n\n# Few-Shot Examples\n\nUse these examples as guidance.\n\n"
    +++ render_few_shot_examples examples

-- `examples[:-1]`
abbrev pub drop_last : List TrainCase → List TrainCase
drop_last [] = []
drop_last (c ∷ []) = []
drop_last (c ∷ d ∷ cs) = c ∷ drop_last (d ∷ cs)

abbrev pub baseline_only : String → String × ℕ × List TrainCase
baseline_only baseline = (baseline, count_tokens_approx baseline, [])

-- `while selected_examples`. Each round drops an example, so that as many rounds as there are examples
-- are enough.
unfoldable pub clip : ℕ → String → ℕ → List TrainCase → String × ℕ × List TrainCase
clip zero baseline max_tokens examples = baseline_only baseline
clip (suc fuel) baseline max_tokens [] = baseline_only baseline
clip (suc fuel) baseline max_tokens (c ∷ cs) =
    let prompt = few_shot_prompt baseline (c ∷ cs) in
    let rest = clip fuel baseline max_tokens (drop_last (c ∷ cs)) in
    if leb (count_tokens_approx prompt) max_tokens
    then (prompt, count_tokens_approx prompt, c ∷ cs)
    else rest

unfoldable pub build_few_shot_prompt_with_budget :
    String → List TrainCase → ℕ → String × ℕ × List TrainCase
unfolding clip
build_few_shot_prompt_with_budget baseline examples max_prompt_tokens =
    clip (length examples) baseline max_prompt_tokens examples

drop_last-take :
    (n : ℕ) (xs : List TrainCase) → n < length xs → drop_last (take (suc n) xs) ≡ take n xs
drop_last-take zero [] h = refl
drop_last-take zero (x ∷ xs) h = refl
drop_last-take (suc n) [] h = refl
drop_last-take (suc n) (x ∷ []) h = absurd (omega arith)
drop_last-take (suc n) (x ∷ y ∷ xs) h = ap (◌∷◌ x) (drop_last-take n (y ∷ xs) (omega arith))

-- The longest prefix of the examples with which the prompt is within the budget, with its prompt and
-- count; the baseline alone where there is none.
abbrev pub IsLongest : String → ℕ → List TrainCase → String × ℕ × List TrainCase → Type 0
IsLongest baseline max_tokens examples result =
    (n : ℕ) × (n ≤ length examples)
    × (result.2 ≡ take n examples)
    × ((m : ℕ)
        → n < m
        → m ≤ length examples
        → max_tokens < count_tokens_approx (few_shot_prompt baseline (take m examples)))
    × (result.1 ≡ count_tokens_approx result.0)
    × (((n ≡ 0) × (result.0 ≡ baseline))
        ⊎ ((result.0 ≡ few_shot_prompt baseline (take n examples)) × (result.1 ≤ max_tokens)))

not-leb→lt : (a b : ℕ) → leb a b ≡ false → b < a
not-leb→lt a b h = ground arith

take-length : (xs : List TrainCase) → take (length xs) xs ≡ xs
take-length [] = refl
take-length (x ∷ xs) = ap (◌∷◌ x) (take-length xs)

-- What is over the budget beyond one length, and at it, is over it beyond the length before.
longer :
    (max_tokens : ℕ) (baseline : String) (xs : List TrainCase) (n : ℕ)
    → max_tokens < count_tokens_approx (few_shot_prompt baseline (take (suc n) xs))
    → ((m : ℕ)
        → suc n < m
        → m ≤ length xs
        → max_tokens < count_tokens_approx (few_shot_prompt baseline (take m xs)))
    → (m : ℕ) → n < m
    → m ≤ length xs
    → max_tokens < count_tokens_approx (few_shot_prompt baseline (take m xs))
longer max_tokens baseline xs n here above m more less = elim (Bool-cases (ltb (suc n) m)) [
  | inl beyond ↦ above m (ltb→lt (suc n) m beyond) less
  | inr at ↦
      let same : suc n ≡ m = ground arith in
      subst (λ k. max_tokens < count_tokens_approx (few_shot_prompt baseline (take k xs))) same here
]

clip-IsLongest :
    (n : ℕ) (baseline : String) (max_tokens : ℕ) (xs : List TrainCase)
    → n ≤ length xs
    → ((m : ℕ)
        → n < m
        → m ≤ length xs
        → max_tokens < count_tokens_approx (few_shot_prompt baseline (take m xs)))
    → IsLongest baseline max_tokens xs (clip n baseline max_tokens (take n xs))
unfolding clip
clip-IsLongest zero baseline max_tokens xs h above =
    (0, omega arith, refl, above, refl, inl (refl, refl))
clip-IsLongest (suc n) baseline max_tokens [] h above = absurd (omega arith)
clip-IsLongest (suc n) baseline max_tokens (x ∷ xs) h above =
    let examples = x ∷ take n xs in
    let tokens = count_tokens_approx (few_shot_prompt baseline examples) in
    elim (Bool-cases (leb tokens max_tokens)) [
      | inl fits ↦ rw fits (suc n, h, refl, above, refl, inr (refl, leb→le tokens max_tokens fits))
      | inr over ↦
          let shorter : (m : ℕ)
              → n < m
              → m ≤ suc (length xs)
              → max_tokens < count_tokens_approx (few_shot_prompt baseline (take m (x ∷ xs))) =
            longer max_tokens baseline (x ∷ xs) n (not-leb→lt tokens max_tokens over) above in
          rw over (
            rw (drop_last-take n (x ∷ xs) (omega arith))
              (clip-IsLongest n baseline max_tokens (x ∷ xs) (omega arith) shorter))
    ]

-- The few-shot prompt uses the longest prefix of the examples that keeps it within the budget, and
-- its count is that of its text; where no prefix does, it is the baseline prompt alone.
pub build_few_shot_prompt_with_budget-IsLongest :
    (baseline : String) (examples : List TrainCase) (max_prompt_tokens : ℕ)
    → IsLongest baseline max_prompt_tokens examples
        (build_few_shot_prompt_with_budget baseline examples max_prompt_tokens)
unfolding build_few_shot_prompt_with_budget
build_few_shot_prompt_with_budget-IsLongest baseline examples max_prompt_tokens =
    subst
      (λ e.
        IsLongest baseline max_prompt_tokens examples
          (clip (length examples) baseline max_prompt_tokens e))
      (take-length examples)
      (clip-IsLongest (length examples) baseline max_prompt_tokens examples (omega arith)
        (λ m more less. absurd (omega arith)))
