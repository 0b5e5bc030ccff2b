-- ===== src/Provider/Rule/Priority.antt =====
-- getRulePriority, pkg/provider/rule.go: the class of a router outweighs the length of its rule.
use maesh.Common.{ℕ, ◌+◌, ◌<◌, String, arith}
use maesh.Common.Text.{count_infix}
use maesh.Provider.Rule.{get_rule_priority}

-- A router of a higher class has the higher priority, whatever the two rules are, if the rule of the
-- lower one has fewer than a thousand operators.
pub get_rule_priority_lt :
    (lower higher : String) (class class' : ℕ)
    → class < class'
    → count_infix lower "&&" + count_infix lower "||" < 1000
    → get_rule_priority lower class < get_rule_priority higher class'
unfolding get_rule_priority
get_rule_priority_lt lower higher class class' above few = omega arith
