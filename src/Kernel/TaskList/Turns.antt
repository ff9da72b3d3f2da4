-- ===== src/Kernel/TaskList/Turns.antt =====
-- src/kernel/scheduler.hpp: a round of `next_task` on a `TaskList`.
use mathlib.Core.Path.{subst}
use mathlib.Core.List.{append-nil, append_assoc}
use umbra_os.Prelude.{
  ℕ, zero, suc, ◌+◌, ◌≡◌, ◌≢◌, refl, sym, ◌∙◌, ap, List, [], ◌∷◌, ◌++◌, length, done, arith,
}
use umbra_os.Kernel.TaskList.{TaskList}
use umbra_os.Kernel.TaskList.Queue.{Place, Op, next, step, answer, task_of, Represents}
use umbra_os.Kernel.TaskList.Run.{run, answers, steps, AllAllowed, queue_refines}

-- So many calls of `next_task`.
abbrev pub turns : ℕ → List Op
turns zero = []
turns (suc n) = next ∷ turns n

abbrev pub tasks : List (ℕ × ℕ) → List ℕ
tasks [] = []
tasks ((a, t) ∷ cells) = t ∷ tasks cells

abbrev at : List (ℕ × ℕ) → List (ℕ × ℕ) → Place
at xs ys = record { before = xs; rest = ys }

-- What a run on the queue does: the answers, the place, and whether the calls are allowed.
abbrev Goes : List Op → Place → List ℕ → Place → Type 0
Goes ops z out z' = (answers ops z ≡ out) × (steps ops z ≡ z') × AllAllowed ops z

Goes-append :
    (ops ops' : List Op) (z z' z'' : Place) (out out' : List ℕ)
    → Goes ops z out z'
    → Goes ops' z' out' z''
    → Goes (ops ++ ops') z (out ++ out') z''
Goes-append [] ops' z z' z'' out out' g g' =
    subst (λ o. Goes ops' z (o ++ out') z'') g.0 (subst (λ w. Goes ops' w out' z'') (sym g.1) g')
Goes-append (op ∷ ops) ops' z z' z'' out out' g g' =
    let r =
      Goes-append ops ops' (step op z) z' z'' (answers ops (step op z)) out' (refl, g.1, g.2.1)
        g' in
    (ap (λ o. answer op z ∷ o) r.0 ∙ ap (λ o. o ++ out') g.0, r.1, (g.2.0, r.2))

Goes-next :
    (ops : List Op) (z z' : Place) (out : List ℕ)
    → z.rest ≢ []
    → Goes ops (step next z) out z'
    → Goes (next ∷ ops) z (answer next z ∷ out) z'
Goes-next ops z z' out some g = (ap (λ o. answer next z ∷ o) g.0, g.1, (some, g.2))

some : (x : ℕ × ℕ) (xs : List (ℕ × ℕ)) → ◌≢◌ {A = List (ℕ × ℕ)} (x ∷ xs) []
some x xs e = cc

-- From a node to behind the last, which is the first.
Goes-end :
    (xs : List (ℕ × ℕ)) (c : ℕ × ℕ) (ys : List (ℕ × ℕ))
    → Goes
        (turns (suc (length ys)))
        (at xs (c ∷ ys))
        (tasks ys ++ task_of (xs ++ c ∷ ys) ∷ [])
        (at [] (xs ++ c ∷ ys))
Goes-end xs c [] = (refl, refl, (some c [], tt))
Goes-end xs c (d ∷ ys) =
    Goes-next (turns (suc (length ys))) (at xs (c ∷ d ∷ ys)) (at [] (xs ++ c ∷ d ∷ ys))
      (tasks ys ++ task_of (xs ++ c ∷ d ∷ ys) ∷ []) (some c (d ∷ ys))
      (subst
        (λ cells.
          Goes (turns (suc (length ys))) (at (xs ++ c ∷ []) (d ∷ ys))
            (tasks ys ++ task_of cells ∷ []) (at [] cells))
        (append_assoc xs (c ∷ []) (d ∷ ys)) (Goes-end (xs ++ c ∷ []) d ys))

-- The tasks behind the first.
abbrev behind : List (ℕ × ℕ) → List ℕ
behind [] = []
behind (x ∷ xs) = tasks xs

-- From the first on.
Goes-forth :
    (ws xs : List (ℕ × ℕ)) (c : ℕ × ℕ) (ys : List (ℕ × ℕ))
    → Goes
        (turns (length xs))
        (at ws (xs ++ c ∷ ys))
        (behind (xs ++ c ∷ []))
        (at (ws ++ xs) (c ∷ ys))
Goes-forth ws [] c ys = (refl, ap (λ w. at w (c ∷ ys)) (sym (append-nil ws)), tt)
Goes-forth ws (x ∷ []) c ys = (refl, refl, (some x (c ∷ ys), tt))
Goes-forth ws (x ∷ y ∷ xs) c ys =
    Goes-next (turns (suc (length xs))) (at ws (x ∷ y ∷ (xs ++ c ∷ ys)))
      (at (ws ++ x ∷ y ∷ xs) (c ∷ ys)) (behind (y ∷ (xs ++ c ∷ []))) (some x (y ∷ (xs ++ c ∷ ys)))
      (subst
        (λ w.
          Goes (turns (suc (length xs))) (at (ws ++ x ∷ []) (y ∷ (xs ++ c ∷ ys)))
            (behind (y ∷ (xs ++ c ∷ []))) (at w (c ∷ ys)))
        (append_assoc ws (x ∷ []) (y ∷ xs)) (Goes-forth (ws ++ x ∷ []) (y ∷ xs) c ys))

tasks-append : (xs ys : List (ℕ × ℕ)) → tasks (xs ++ ys) ≡ tasks xs ++ tasks ys
tasks-append [] ys = refl
tasks-append (x ∷ xs) ys = ap (λ ts. x.1 ∷ ts) (tasks-append xs ys)

in_order :
    (xs : List (ℕ × ℕ)) (c : ℕ × ℕ) (ys : List (ℕ × ℕ))
    → ((tasks ys ++ task_of (xs ++ c ∷ ys) ∷ []) ++ behind (xs ++ c ∷ []))
      ≡ tasks (ys ++ (xs ++ c ∷ []))
in_order xs c ys =
    append_assoc (tasks ys) (task_of (xs ++ c ∷ ys) ∷ []) (behind (xs ++ c ∷ []))
    ∙ ap (λ ts. tasks ys ++ ts) (first xs)
    ∙ sym (tasks-append ys (xs ++ c ∷ []))
  where
    first :
        (xs : List (ℕ × ℕ))
        → (task_of (xs ++ c ∷ ys) ∷ behind (xs ++ c ∷ [])) ≡ tasks (xs ++ c ∷ [])
    first [] = refl
    first (x ∷ xs) = refl

turns-append : (m n : ℕ) → (turns m ++ turns n) ≡ turns (m + n)
turns-append zero n = let e : n ≡ 0 + n = omega arith in ap turns e
turns-append (suc m) n =
    let e : suc (m + n) ≡ suc m + n = omega arith in
    ap (λ ops. next ∷ ops) (turns-append m n) ∙ ap turns e

round :
    (xs : List (ℕ × ℕ)) (c : ℕ × ℕ) (ys : List (ℕ × ℕ))
    → Goes
        (turns (suc (length ys) + length xs))
        (at xs (c ∷ ys))
        (tasks (ys ++ (xs ++ c ∷ [])))
        (at xs (c ∷ ys))
round xs c ys =
    subst (λ ops. Goes ops (at xs (c ∷ ys)) (tasks (ys ++ (xs ++ c ∷ []))) (at xs (c ∷ ys)))
      (turns-append (suc (length ys)) (length xs))
      (subst
        (λ out.
          Goes (turns (suc (length ys)) ++ turns (length xs)) (at xs (c ∷ ys)) out (at xs (c ∷ ys)))
        (in_order xs c ys)
        (Goes-append (turns (suc (length ys))) (turns (length xs)) (at xs (c ∷ ys))
          (at [] (xs ++ c ∷ ys)) (at xs (c ∷ ys)) (tasks ys ++ task_of (xs ++ c ∷ ys) ∷ [])
          (behind (xs ++ c ∷ [])) (Goes-end xs c ys) (Goes-forth [] xs c ys)))

-- When a run queue holds a list of tasks and one of them is the current one, as many calls of
-- `next_task` as there are tasks end without a fault. They return each task of the list once, in
-- the order in which they stand behind the current one, from the last on to the first, and the
-- current one last; the queue then holds the same list with the same current one.
pub run-turns :
    (l : TaskList) (xs : List (ℕ × ℕ)) (c : ℕ × ℕ) (ys : List (ℕ × ℕ))
    → Represents l (record { before = xs; rest = c ∷ ys })
    → (r : TaskList) × (run (turns (length (c ∷ ys) + length xs)) l
        ≡ done (tasks (ys ++ (xs ++ c ∷ [])), r))
      × Represents r (record { before = xs; rest = c ∷ ys })
run-turns l xs c ys v =
    let (out, place, allowed) = round xs c ys in
    let (r, e, v') =
      queue_refines (turns (suc (length ys) + length xs)) l (at xs (c ∷ ys)) allowed v in
    (r, e ∙ ap (λ o. done (o, r)) out, subst (Represents r) place v')
