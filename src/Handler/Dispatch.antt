-- ===== src/Handler/Dispatch.antt =====
-- InteractiveHandler.Dispatch of pkg/handler/dispatch.go: what a line of the client asks for, at the
-- page size of the moment. Handler.Session has the loop over the lines.
use gojump.Prelude.{
  ℕ, zero, suc, Str, List, [], ◌∷◌, Bool, ◌||◌, Option, none, some, if◌then◌else◌, codes, str_eq,
  starts_with, drop, get_elem?,
}
use gojump.Prelude.Int.{ℤ, pos, negsuc}
use gojump.Prelude.Atoi.{atoi, trim_space}
use gojump.Model.{Node}
use gojump.Model.Protocol.{to_lower}
use gojump.Handler.Select.{Request, next, previous, look, again, pick, node, assets}

pub data Command : Type 0 where
  quit show_nodes show_help refresh : Command
  ask : List Request → Command

-- `h.nodes[num-1]` where `num` is in range.
chosen_node : Option ℤ → List Node → Option Node
chosen_node none nodes = none
chosen_node (some (negsuc n)) nodes = none
chosen_node (some (pos zero)) nodes = none
chosen_node (some (pos (suc n))) nodes = get_elem? nodes n

-- A line of one byte.
letter : ℕ → Str → Command
letter n line =
    let key = to_lower line in
    if str_eq key (codes "p")
    then ask (assets ∷ look n [] ∷ [])
    else if str_eq key (codes "b")
    then ask (previous n ∷ [])
    else if str_eq key (codes "n")
    then ask (next n ∷ [])
    else if str_eq key (codes "g")
    then show_nodes
    else if str_eq key (codes "h")
    then show_help
    else if str_eq key (codes "r")
    then refresh
    else if str_eq key (codes "q")
    then quit
    else ask (pick n line ∷ [])

-- A longer line.
word : List Node → ℕ → Str → Command
unfolding chosen_node
word nodes n line =
    if str_eq line (codes "exit") || str_eq line (codes "quit")
    then quit
    else if starts_with (codes "/") line
    then (if starts_with (codes "/") (drop 1 line)
        then ask (again n (trim_space (drop 2 line)) ∷ [])
        else ask (look n (trim_space (drop 1 line)) ∷ []))
    else if starts_with (codes "g") line
    then elim (chosen_node (atoi (trim_space (drop 1 line))) nodes) [
      | none ↦ ask (pick n line ∷ [])
      | some x ↦ ask (node x ∷ look n [] ∷ [])
    ]
    else ask (pick n line ∷ [])

unfoldable pub interpret : List Node → Bool → ℕ → Str → Command
unfolding letter word
interpret nodes initialed n raw = elim (trim_space raw) [
  | [] ↦ if initialed then ask (next n ∷ []) else ask (assets ∷ look n [] ∷ [])
  | (c ∷ []) ↦ letter n (c ∷ [])
  | (c ∷ d ∷ rest) ↦ word nodes n (c ∷ d ∷ rest)
]
