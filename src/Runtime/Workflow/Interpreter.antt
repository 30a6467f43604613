-- ===== src/Runtime/Workflow/Interpreter.antt =====
-- A concrete engine: it follows the edges and gives up at its recursion limit. It runs the workflow
-- in tests, and shows that `Follows` can be met.
use multi_agent_langgraph.Base.{ℕ, zero, suc, ◌≤◌, ◌≡◌, arith, ok, raise, graph_recursion_error}
use multi_agent_langgraph.Runtime.Models.{RunNode}
use multi_agent_langgraph.Runtime.Workflow.{WorkflowState}
use multi_agent_langgraph.Runtime.Workflow.Graph.{node, end}
use multi_agent_langgraph.Runtime.Workflow.Engine.{Visit, Engine, Follows, Walks, stop, go}

unfoldable pub interpret : ℕ → Engine
interpret zero v n s = raise graph_recursion_error
interpret (suc limit) v n s = elim (v n s) [
  | raise e ↦ raise e
  | ok (t, end) ↦ ok t
  | ok (t, node m) ↦ interpret limit v m t
]

interpret-Walks :
    (limit k : ℕ) (v : Visit) {n : RunNode} {s t : WorkflowState}
    → Walks v k n s t
    → k ≤ limit
    → interpret limit v n s ≡ ok t
unfolding interpret
interpret-Walks zero k v (stop h) b = absurd (omega arith)
interpret-Walks zero k v (go h w) b = absurd (omega arith)
interpret-Walks (suc limit) k v (stop h) b = rw (h, interpret)
interpret-Walks (suc limit) k v (go h w) b =
    rw (h, interpret) (interpret-Walks limit _ v w (omega arith))

pub interpret-Follows : (limit : ℕ) → Follows (interpret limit) limit
interpret-Follows limit = record { returns = λ v k n s t w b. interpret-Walks limit k v w b }
