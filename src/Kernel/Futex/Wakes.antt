-- ===== src/Kernel/Futex/Wakes.antt =====
-- src/kernel/scheduler.cpp: which tasks `wake_futex_handles` wakes.
use umbra_os.Prelude.{
  ℕ, zero, suc, ◌<◌, ◌≡◌, refl, sym, ◌∙◌, Bool, true, false, some, List, [], ◌∷◌, ◌==◌,
  if◌then◌else◌, arith, length, done, ==_of_ne, ==_iff, Bool-cases, inl, inr,
}
use umbra_os.Prelude.Maps.{update}
use umbra_os.Utils.LinkedList.{Node, DoublyLinkedList}
use umbra_os.Utils.LinkedList.Chain.{Chain, has, get-eq}
use umbra_os.Kernel.Scheduler.{Scheduler, Task, running}
use umbra_os.Kernel.Futex.{Futexes, woken_by, wake_from, wake_futex_handles, sys_futex_wake}

abbrev pub run : Task → Task
run t = record t { status = running }

-- The words that each task waits for, in cells of its list.
abbrev pub Words : Type 0
Words = ℕ → List (ℕ × ℕ)

abbrev pub Listed : ℕ → (ℕ → DoublyLinkedList) → Words → Type 0
Listed steps futexes words =
    (t : ℕ) → Chain (futexes t).nodes (futexes t).head (words t) × (length (words t) < steps)

-- Whether a task has a handle and waits for the word.
abbrev pub waits : List (ℕ × ℕ) → Words → ℕ → ℕ → Bool
waits cells words pointer t = if has t cells then has pointer (words t) else false

abbrev pub after_wake : List (ℕ × ℕ) → Words → ℕ → (ℕ → Task) → ℕ → Task
after_wake cells words pointer tasks t =
    if waits cells words pointer t then run (tasks t) else tasks t

module _ (pointer : ℕ) (words : Words) where
  run_once : (b : Bool) (t : Task) → (if b then run (run t) else run t) ≡ run t
  run_once true t = refl
  run_once false t = refl

  kept : (b : Bool) (t : Task) → (if (if b then false else false) then run t else t) ≡ t
  kept true t = refl
  kept false t = refl

  woken_first :
      (a u : ℕ) (cells : List (ℕ × ℕ)) (tasks : ℕ → Task) (t : ℕ)
      → has pointer (words u) ≡ true
      → after_wake cells words pointer (update tasks u (run (tasks u))) t
        ≡ after_wake ((a, u) ∷ cells) words pointer tasks t
  unfolding has
  woken_first a u cells tasks t held = elim (Bool-cases (u == t)) [
    | inl e ↦
        let same = (==_iff u t).0 e in
        rw (e, sym same, held) (run_once (if has u cells then true else false) (tasks u))
    | inr e ↦ rw e refl
  ]

  kept_first :
      (a u : ℕ) (cells : List (ℕ × ℕ)) (tasks : ℕ → Task) (t : ℕ)
      → has pointer (words u) ≡ false
      → after_wake cells words pointer tasks t ≡ after_wake ((a, u) ∷ cells) words pointer tasks t
  unfolding has
  kept_first a u cells tasks t none_held = elim (Bool-cases (u == t)) [
    | inl e ↦
        let same = (==_iff u t).0 e in rw (e, sym same, none_held) (kept (has u cells) (tasks u))
    | inr e ↦ rw e refl
  ]

  wake_from-eq :
      (cells : List (ℕ × ℕ)) (fuel steps : ℕ) (futexes : ℕ → DoublyLinkedList) (nodes : ℕ → Node)
      (p : ℕ) (s : Scheduler)
      → Listed steps futexes words
      → Chain nodes p cells
      → length cells < fuel
      → (r : ℕ → Task) × (wake_from fuel steps pointer futexes nodes p s
          ≡ done (record s { tasks = r }))
        × ((t : ℕ) → r t ≡ after_wake cells words pointer s.tasks t)
  unfolding wake_from has
  wake_from-eq cells zero steps futexes nodes p s l c h = absurd (omega (arith, h))
  wake_from-eq [] (suc fuel) steps futexes nodes p s l c h = (s.tasks, rw c.0 refl, λ t. refl)
  wake_from-eq ((a, u) ∷ cells) (suc fuel) steps futexes nodes p s l c h =
      let on : (s' : Scheduler)
          → (r : ℕ → Task) × (wake_from fuel steps pointer futexes nodes (nodes a).next s'
              ≡ done (record s' { tasks = r }))
            × ((t : ℕ) → r t ≡ after_wake cells words pointer s'.tasks t) =
        λ s'.
          wake_from-eq cells fuel steps futexes nodes (nodes a).next s' l c.3 (omega (arith, h)) in
      let got = get-eq steps pointer (futexes u) (words u) (l u).1 (l u).0 in
      elim (Bool-cases (has pointer (words u))) [
        | inl e ↦
            let (r, e', same) = on (woken_by (some pointer) u s) in
            (
              r,
              rw (c.0, ==_of_ne a 0 c.1, c.2, got, e) e',
              λ t. same t ∙ woken_first a u cells s.tasks t e,
            )
        | inr e ↦
            let (r, e', same) = on s in
            (
              r,
              rw (c.0, ==_of_ne a 0 c.1, c.2, got, e) e',
              λ t. same t ∙ kept_first a u cells s.tasks t e,
            )
      ]

-- When the futex handles are chained, and the words of each task too, `sys_futex_wake` ends within
-- one step for each handle and one more, and in each list of words within one step for each word
-- and one more. It sets running each task that has a handle and waits for the word, and changes no
-- other field of a task and no other task.
pub sys_futex_wake_lem :
    (cells : List (ℕ × ℕ)) (words : Words) (fuel steps pointer : ℕ) (f : Futexes) (s : Scheduler)
    → Chain f.handles.nodes f.handles.head cells
    → Listed steps f.futexes words
    → length cells < fuel
    → (r : ℕ → Task) × (sys_futex_wake fuel steps pointer f s ≡ done (record s { tasks = r }))
      × ((t : ℕ) → r t ≡ after_wake cells words pointer s.tasks t)
unfolding sys_futex_wake wake_futex_handles
sys_futex_wake_lem cells words fuel steps pointer f s c l h =
    wake_from-eq pointer words cells fuel steps f.futexes f.handles.nodes f.handles.head s l c h
