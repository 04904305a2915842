-- ===== src/RuleCoverage.antt =====
-- pr_agent/algo/improve_coverage.py: the rules that no suggestion cites.
pub mod Uncovered
use my_pr_agent.Prelude.{
  ℕ, Bool, true, false, not, ◌||◌, List, [], ◌∷◌, ◌++◌, Option, none, some, keep, contains, length,
  map, nat_eq, list_eq, ◌==◌, if◌then◌else◌,
}
use my_pr_agent.Text.{Text, codes, newline, is_empty, join}
use my_pr_agent.Text.Numbers.{print}

-- `_rule_key_pattern().finditer` is a library: the keys that it finds in a text.
abbrev pub FindKeys : Type 0
FindKeys = Text → List Text

-- A suggestion that is a mapping, with the fields that are read; an absent one is empty.
pub record Suggestion : Type 0 where
  pub suggestion_content : Text
  pub one_sentence_summary : Text
  pub improved_code : Text

unfoldable pub scan_text : FindKeys → Text → List Text
scan_text find text = if is_empty text then [] else find text

-- A set is a list here, since only membership is asked for. `none` is a suggestion that is no
-- mapping.
unfoldable pub collect_cited_keys : FindKeys → List (Option Suggestion) → List Text
unfolding scan_text
collect_cited_keys find [] = []
collect_cited_keys find (none ∷ suggestions) = collect_cited_keys find suggestions
collect_cited_keys find (some s ∷ suggestions) =
    scan_text find s.suggestion_content
    ++ scan_text find s.one_sentence_summary
    ++ scan_text find s.improved_code
    ++ collect_cited_keys find suggestions

unfoldable pub compute_uncovered_rules : FindKeys → List Text → List (Option Suggestion) → List Text
unfolding collect_cited_keys
compute_uncovered_rules find required suggestions =
    let cited = collect_cited_keys find suggestions in
    if is_empty required then [] else keep (λ k. not (contains cited k)) required

abbrev pub items : List Text → Text
items keys = join (newline ∷ []) (map (λ k. codes "- `" ++ k ++ codes "`") keys)

-- An empty text where there is nothing to show; a note in place of a warning if no rule is cited.
unfoldable pub render_uncovered_details : List Text → ℕ → Text
unfolding join print
render_uncovered_details uncovered total_required =
    if is_empty uncovered || total_required == 0
    then []
    else if length uncovered == total_required
    then codes "\n\n<details>\n<summary>ℹ"
      ++ 0xfe0f ∷ codes " 规则覆盖: 本次 diff 未触发 "
      ++ print total_required
      ++ codes
          " 条 AGENTS.md 规则中的任何一条</summary>\n\n本仓库 AGENTS.md / .agents/rules/ 中定义的所有规则键本次都没有违规迹象, 机器人也不会给出针对性的 Apply 建议:\n\n"
      ++ items uncovered
      ++ codes "\n\n如果你认为 diff 里**确实**违反了某条规则, 请人工补一条对应建议或重跑 `/improve`.\n\n</details>\n"
    else codes "\n\n<details>\n<summary>⚠"
      ++ 0xfe0f ∷ codes " 规则覆盖检查: "
      ++ print (length uncovered)
      ++ codes
          " 条 AGENTS.md 规则未在本次 /improve 的 Apply 建议里被引用</summary>\n\n下列规则键在本仓库的 AGENTS.md / .agents/rules/ 中定义, 但本次评审里没有对应的可应用代码建议:\n\n"
      ++ items uncovered
      ++ codes
          "\n\n可能原因: LLM 选择了更显眼的通用 bug 作为建议, 或当前 diff 不存在该类违规. 如确实有违规未覆盖, 请人工补一条 Apply 建议或重跑 `/improve`.\n\n</details>\n"
