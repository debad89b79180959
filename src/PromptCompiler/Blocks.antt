-- ===== src/PromptCompiler/Blocks.antt =====
-- What a compiled prompt holds: the baseline first, and a block for each rule.
use text.Mathlib.TextLemmas.{append_assoc, append-nil, nil-append}
use rule_kiln.Prelude.{
  ℕ, suc, Option, List, [], ◌∷◌, ◌++◌, String, ◌≡◌, refl, sym, All, All-imp, All_of-sort_by,
  sort_by, length,
}
use rule_kiln.Rules.{Rule}
use rule_kiln.PromptCompiler.Sections.{join, ◌+++◌, Texts, PromptTask, compile_baseline_prompt}
use rule_kiln.PromptCompiler.Compile.{
  by_priority_and_topic, render_rule, render_from, rule_header, policy_sections,
  instruction_sections, compile_prompt,
}

-- The second text stands in the first.
abbrev pub Contains : String → String → Type 0
Contains whole part = (before : String) × (after : String) × (whole ≡ before +++ (part +++ after))

Contains-self : (s : String) → Contains s s
Contains-self s = ("", "", rw nil-append (sym (append-nil s)))

Contains-after : (s t part : String) → Contains t part → Contains (s +++ t) part
Contains-after s t part (before, after, e) =
    (s +++ before, after, rw e (sym (append_assoc s before (part +++ after))))

Contains-before : (s t part : String) → Contains s part → Contains (s +++ t) part
Contains-before s t part (before, after, e) =
    (before, after +++ t, rw e (rw append_assoc (rw append_assoc refl)))

Contains-trans : (s t u : String) → Contains s t → Contains t u → Contains s u
Contains-trans s t u (before, after, e) inner =
    let (b, a, eq) = Contains-after before (t +++ after) u (Contains-before t after u inner) in
    (b, a, rw e eq)

-- A joined text holds every one of its parts.
Contains-join : (sep : String) (ts : List String) → All (Contains (join sep ts)) ts
unfolding join
Contains-join sep [] = tt
Contains-join sep (t ∷ []) = (Contains-self t, tt)
Contains-join sep (t ∷ u ∷ ts) = (
  Contains-before t _ t (Contains-self t),
  All-imp (u ∷ ts) (λ p held. Contains-after t _ p (Contains-after sep _ p held))
      (Contains-join sep (u ∷ ts)),
)

join_begins :
    (sep t : String) (ts : List String) → (rest : String) × (join sep (t ∷ ts) ≡ t +++ rest)
unfolding join
join_begins sep t [] = ("", sym (append-nil t))
join_begins sep t (u ∷ us) = (sep +++ join sep (u ∷ us), refl)

module _ {F : Type 0} where
  -- The block of a rule, under some number.
  abbrev pub HasBlock : String → Rule F → Type 0
  HasBlock prompt r = (n : ℕ) × Contains prompt (render_rule n r)

  blocks_of :
      (n : ℕ) (rs : List (Rule F)) (prompt : String)
      → All (Contains prompt) (render_from n rs)
      → All (HasBlock prompt) rs
  unfolding render_from
  blocks_of n [] prompt h = tt
  blocks_of n (r ∷ rs) prompt h = ((n, h.0), blocks_of (suc n) rs prompt h.1)

  policy_blocks :
      (rs : List (Rule F)) (strategy version : String) (rest : List String) (prompt : String)
      → All (Contains prompt) (policy_sections rs strategy version ++ rest)
      → All (HasBlock prompt) rs
  unfolding policy_sections
  policy_blocks [] strategy version rest prompt h = tt
  policy_blocks (r ∷ rs) strategy version rest prompt h =
      let header = rule_header (length (r ∷ rs)) strategy version in
      let parts = header ∷ render_from 1 (r ∷ rs) in
      blocks_of 1 (r ∷ rs) prompt (
        All-imp (render_from 1 (r ∷ rs))
          (λ p held. Contains-trans prompt (join "\n\n" parts) p h.0 held)
          (Contains-join "\n\n" parts).1)

  -- The prompt of a strategy begins with the baseline prompt of the task, and holds a block for each
  -- of the rules given.
  pub compile_prompt-HasBlock :
      (py : Texts) (task : PromptTask) (rules : List (Rule F)) (strategy version : String)
      (additional : Option String)
      → ((rest : String) × ((compile_prompt py task rules strategy version additional).0
            ≡ compile_baseline_prompt py task +++ rest))
        × All (HasBlock (compile_prompt py task rules strategy version additional).0) rules
  unfolding compile_prompt
  compile_prompt-HasBlock py task rules strategy version additional =
      let sorted = sort_by by_priority_and_topic rules in
      let rest = policy_sections sorted strategy version ++ instruction_sections additional in
      let baseline = compile_baseline_prompt py task in
      let held = Contains-join "\n\n" (baseline ∷ rest) in
      (
        join_begins "\n\n" baseline rest,
        All_of-sort_by by_priority_and_topic _ rules
            (policy_blocks sorted strategy version (instruction_sections additional) _ held.1),
      )
