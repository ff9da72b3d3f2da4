-- ===== src/Kernel/TaskList/Links.antt =====
-- src/kernel/scheduler.hpp: the chain of a `TaskList`, and the step of `next_task` along it.
use umbra_os.Prelude.{ℕ, ◌≡◌, ◌≢◌, List, [], ◌∷◌, done, ==_of_ne}
use umbra_os.Kernel.TaskList.{Node, TaskList, next_task}

-- From `p` on, the `next` pointers pass through the nodes and tasks of the list.
abbrev pub Links : (ℕ → Node) → ℕ → List (ℕ × ℕ) → Type 0
Links nodes p [] = (p ≡ 0) × Unit {0}
Links nodes p ((a, t) ∷ cells) =
    (p ≡ a) × (a ≢ 0) × ((nodes a).task ≡ t) × Links nodes (nodes a).next cells

-- The task behind a position in the chain: the next one, or the first of the whole chain.
abbrev pub following : ℕ × ℕ → List (ℕ × ℕ) → ℕ × ℕ
following first [] = first
following first (cell ∷ cells) = cell

-- When the queue and its part from the current node on are linked, `next_task` steps to the node
-- behind the current one, and from the last to the front, and returns its task.
pub next_task_lem :
    (l : TaskList) (first cell : ℕ × ℕ) (whole rest : List (ℕ × ℕ))
    → Links l.nodes l.front (first ∷ whole)
    → Links l.nodes l.current (cell ∷ rest)
    → next_task l ≡ done ((following first rest).1, record l { current = (following first rest).0 })
unfolding next_task
next_task_lem l first (a, t) whole [] f c =
    rw (c.0, ==_of_ne a 0 c.1, c.3.0, f.0, ==_of_ne first.0 0 f.1, f.2)
next_task_lem l first (a, t) whole ((b, u) ∷ rest) f c =
    rw (c.0, ==_of_ne a 0 c.1, c.3.0, ==_of_ne b 0 c.3.1, ==_of_ne b 0 c.3.1, c.3.2)
