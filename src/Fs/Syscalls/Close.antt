-- ===== src/Fs/Syscalls/Close.antt =====
-- src/kernel/syscalls/fs.cpp: `sys_close` on the handle that was added before the last.
use umbra_os.Prelude.{
  ℕ, suc, ◌<◌, ◌≡◌, ◌≢◌, refl, ap, ◌∙◌, List, ◌∷◌, length, arith, fault, done, ==_of_ne, ==_refl,
}
use umbra_os.Utils.LinkedList.{Node}
use umbra_os.Utils.LinkedList.Prev.{pushes, pushes-Chain, Distinct, remove_second_faults}
use umbra_os.Fs.Handles.{get_file_handle}
use umbra_os.Fs.Handles.Lookup.{handle_from-eq}
use umbra_os.Fs.Syscalls.{Kernel, ids_of, sys_close}

module _ (memory : ℕ → Node) (k : Kernel) (fuel fd a v b w : ℕ) (cells : List (ℕ × ℕ))
    (built : k.task.handles ≡ pushes memory ((a, v) ∷ (b, w) ∷ cells))
    (d : Distinct ((a, v) ∷ (b, w) ∷ cells)) (enough : length cells < fuel)
    (newest : ids_of k.vfs v ≢ fd) (own : ids_of k.vfs w ≡ fd) (present : w ≢ 0) where
  found : get_file_handle (suc (suc fuel)) (ids_of k.vfs) fd k.task ≡ done w
  unfolding get_file_handle
  found = rw (built) (
      handle_from-eq (suc (suc fuel)) (ids_of k.vfs) fd
        (pushes memory ((a, v) ∷ (b, w) ∷ cells)).nodes
        (pushes memory ((a, v) ∷ (b, w) ∷ cells)).head ((a, v) ∷ (b, w) ∷ cells)
        (omega (arith, enough)) (pushes-Chain memory ((a, v) ∷ (b, w) ∷ cells) d)
      ∙ rw (==_of_ne (ids_of k.vfs v) fd newest, own, ==_refl fd) refl)

  -- When a task's handles were built by pushes at distinct addresses, and the id given is that of
  -- the handle pushed last but one and not that of the last, `sys_close` of the id, with fuel for
  -- each handle, follows a null pointer.
  pub sys_close_faults : sys_close (suc (suc fuel)) fd k ≡ fault
  unfolding sys_close
  sys_close_faults =
      rw
        (
          found,
          ==_of_ne w 0 present,
          built,
          remove_second_faults memory fuel a v b w cells d
              (λ e. newest (ap (ids_of k.vfs) e ∙ own)),
        )
        refl
