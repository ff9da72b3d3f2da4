-- ===== src/Kernel/UserStack.antt =====
-- src/kernel/task.cpp: the stack that `Task::create` lays out for a program. The stack is the list of its words
-- from the stack pointer up; the strings stand above it. The source has no arguments and no environment; here
-- both are lists of strings' lengths, which its loops go through.
use umbra_os.Prelude.{
  ℕ, suc, ◌+◌, ◌-◌, ◌*◌, ◌/◌, ◌%◌, ◌^◌, ◌≤◌, ◌≡◌, ◌==◌, if◌then◌else◌, List, [], ◌∷◌, length, arith,
  Bool-cases, inl, inr, ==_iff, ==→ne,
}

abbrev pub user_stack_base : ℕ
user_stack_base = 0x00007ffffffff000

-- The numbers of <elf.h> for the auxiliary vector, and what stands in it.
pub record Auxiliary : Type 0 where
  pub at_secure : ℕ
  pub at_entry : ℕ
  pub at_phdr : ℕ
  pub at_phent : ℕ
  pub at_phnum : ℕ

-- The bytes that the strings take, each with one more.
abbrev pub string_bytes : List ℕ → ℕ
string_bytes [] = 0
string_bytes (len ∷ lens) = len + 1 + string_bytes lens

-- The loop over the pointers: `old_rsp` before it, and after it with the stack.
unfoldable pub push_pointers : List ℕ → ℕ → List ℕ → ℕ × List ℕ
push_pointers [] old_rsp stack = (old_rsp, stack)
push_pointers (len ∷ lens) old_rsp stack =
    let at = (old_rsp + 2 ^ 64 - (len + 1)) % 2 ^ 64 in push_pointers lens at (at ∷ stack)

-- The pushes of the auxiliary vector, with the numbers and the values.
abbrev pub push_auxiliary : Auxiliary → Auxiliary → List ℕ → List ℕ
push_auxiliary number value stack =
    number.at_phnum ∷ value.at_phnum ∷ number.at_phent ∷ value.at_phent ∷ number.at_phdr
    ∷ value.at_phdr ∷ number.at_entry ∷ value.at_entry ∷ number.at_secure ∷ 0 ∷ 0 ∷ 0 ∷ stack

-- The words from the pointer to the aligned strings. `garbage` stands in the word that is left out.
unfoldable pub user_stack : Auxiliary → Auxiliary → ℕ → List ℕ → List ℕ → List ℕ
user_stack number value garbage argv envp =
    let start : List ℕ = if (length argv + length envp) % 2 == 0 then garbage ∷ [] else [] in
    let (rsp, with_envp) =
      push_pointers envp user_stack_base (0 ∷ push_auxiliary number value start) in
    let (rsp', with_argv) = push_pointers argv rsp (0 ∷ with_envp) in length argv ∷ with_argv

-- `ALIGN_DOWN(stack, 16)`, as a distance from the top, which is a multiple of 16.
abbrev pub string_room : List ℕ → List ℕ → ℕ
string_room argv envp = (string_bytes envp + string_bytes argv + 15) / 16 * 16

-- `iret_rsp`.
unfoldable pub iret_rsp : Auxiliary → Auxiliary → ℕ → List ℕ → List ℕ → ℕ
iret_rsp number value garbage argv envp =
    (user_stack_base
      + 2 ^ 64
      - (string_room argv envp + 8 * length (user_stack number value garbage argv envp)))
    % 2 ^ 64

length-push_pointers :
    (lens : List ℕ) (rsp : ℕ) (stack : List ℕ)
    → length (push_pointers lens rsp stack).1 ≡ length lens + length stack
unfolding push_pointers
length-push_pointers [] rsp stack = omega arith
length-push_pointers (len ∷ lens) rsp stack =
    let at = (rsp + 2 ^ 64 - (len + 1)) % 2 ^ 64 in
    omega (arith, length-push_pointers lens at (at ∷ stack))

module _ (number value : Auxiliary) (garbage : ℕ) (argv envp : List ℕ) where
  even_length : length (user_stack number value garbage argv envp) % 2 ≡ 0
  unfolding user_stack
  even_length = elim (Bool-cases ((length argv + length envp) % 2 == 0)) [
    | inl e ↦ rw e (counted (garbage ∷ []) (let even = (==_iff _ _).0 e in omega (arith, even)))
    | inr e ↦ rw e (counted [] (let odd = ==→ne _ _ e in omega (arith, odd)))
  ]
    where
      counted :
          (start : List ℕ)
          → (15 + length argv + length envp + length start) % 2 ≡ 0
          → let (rsp, with_envp) =
              push_pointers envp user_stack_base (0 ∷ push_auxiliary number value start) in
            suc (length (push_pointers argv rsp (0 ∷ with_envp)).1) % 2 ≡ 0
      counted start even =
          let below = push_pointers envp user_stack_base (0 ∷ push_auxiliary number value start) in
          omega (
            arith,
            even,
            length-push_pointers envp user_stack_base (0 ∷ push_auxiliary number value start),
            length-push_pointers argv below.0 (0 ∷ below.1),
          )

  -- For all arguments and environments whose stack fits below its base, the stack pointer that a
  -- program starts with is a multiple of 16.
  iret_rsp-mod :
      string_room argv envp + 8 * length (user_stack number value garbage argv envp)
        ≤ user_stack_base
      → iret_rsp number value garbage argv envp % 16 ≡ 0
  unfolding iret_rsp
  iret_rsp-mod fits = omega (arith, fits, even_length)
