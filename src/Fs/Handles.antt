-- ===== src/Fs/Handles.antt =====
-- src/kernel/task.cpp: the handles of a task. Descriptors and sockets stand at addresses; their ids
-- are 32-bit words.
pub mod Lookup
use umbra_os.Prelude.{
  ℕ, zero, suc, ◌+◌, ◌-◌, ◌%◌, ◌^◌, ◌==◌, if◌then◌else◌, Outcome, done, out_of_fuel,
}
use umbra_os.Prelude.Maps.{update}
use umbra_os.Utils.LinkedList
use umbra_os.Utils.LinkedList.{DoublyLinkedList}

-- The fields of a `Task` that hold its handles.
pub record Task : Type 0 where
  pub handles : DoublyLinkedList
  pub socket_handles : DoublyLinkedList
  pub next_id : ℕ

-- The id of a handle that has none yet.
abbrev pub no_id : ℕ
no_id = 2 ^ 32 - 1

abbrev pub id_given : (ℕ → ℕ) → ℕ → ℕ → ℕ → ℕ
id_given ids handle next_id = if ids handle == no_id then update ids handle next_id else ids

-- `add_file_handle`: the id, the ids of all descriptors, and the task. `node` is the address that the
-- list's `new Node` returns.
unfoldable pub add_file_handle : ℕ → ℕ → (ℕ → ℕ) → Task → ℕ × (ℕ → ℕ) × Task
add_file_handle node fd ids t =
    let ids' = id_given ids fd t.next_id in
    if fd == 0 then (no_id, ids, t) else (
      ids' fd,
      ids',
      record t { handles = LinkedList.push node fd t.handles; next_id = (t.next_id + 1) % 2 ^ 32 },
    )

unfoldable pub add_socket_handle : ℕ → ℕ → (ℕ → ℕ) → Task → ℕ × (ℕ → ℕ) × Task
add_socket_handle node handle ids t =
    let ids' = id_given ids handle t.next_id in
    if handle == 0 then (no_id, ids, t) else (
      ids' handle,
      ids',
      record t {
        socket_handles = LinkedList.push node handle t.socket_handles;
        next_id = (t.next_id + 1) % 2 ^ 32;
      },
    )

-- The walk of both lookups. The null pointer says that no handle has the id.
unfoldable pub handle_from : ℕ → (ℕ → ℕ) → ℕ → (ℕ → LinkedList.Node) → ℕ → Outcome ℕ
handle_from zero ids id nodes current = out_of_fuel
handle_from (suc fuel) ids id nodes current =
    let value = (nodes current).value in
    let on = handle_from fuel ids id nodes (nodes current).next in
    if current == 0 then done 0 else if ids value == id then done value else on

unfoldable pub get_file_handle : ℕ → (ℕ → ℕ) → ℕ → Task → Outcome ℕ
get_file_handle fuel ids id t = handle_from fuel ids id t.handles.nodes t.handles.head

unfoldable pub get_socket_handle : ℕ → (ℕ → ℕ) → ℕ → Task → Outcome ℕ
get_socket_handle fuel ids id t =
    handle_from fuel ids id t.socket_handles.nodes t.socket_handles.head
