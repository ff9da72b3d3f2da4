-- ===== src/Kernel/Tty.antt =====
-- src/kernel/drivers/tty.cpp: the file system behind the standard descriptors, which reads keys and writes to the
-- terminal. The keyboard's events are those that the task's ring hands out, in order.
use umbra_os.Prelude.{
  ℕ, zero, suc, ◌+◌, Option, none, some, ◌==◌, if◌then◌else◌, List, [], ◌∷◌, Outcome, done, ◌>>=◌,
}
use umbra_os.Libc.Strings.{Bytes}
use umbra_os.Kernel.Keyboard.{KeyboardEvent}
use umbra_os.Kernel.Terminal.{Display, Terminal, white, rgb, puts}
use umbra_os.Kernel.Terminal.Printf.{printf}
use umbra_os.Fs.Vfs.{NodeType, is_directory}

-- What `read` returns, the bytes that are written to the buffer, the events that are left, and the terminal.
pub record Answer : Type 0 where
  pub result : ℕ
  pub bytes : List ℕ
  pub rest : List KeyboardEvent
  pub terminal : Terminal

abbrev pub keep_byte : ℕ → Option Answer → Option Answer
keep_byte c none = none
keep_byte c (some a) = some (record a { bytes = c ∷ a.bytes })

-- The literal "%c".
abbrev pub percent_c : Bytes
percent_c zero = b'%'
percent_c (suc zero) = b'c'
percent_c (suc (suc i)) = 0

-- The loop with so many bytes read; none when it waits for more events. `fuel` bounds the echo of a key.
unfoldable pub read_from :
    Display → ℕ → ℕ → ℕ → List KeyboardEvent → Terminal → Outcome (Option Answer)
read_from d fuel length read [] t =
    if read == length
    then done (some (record { result = length; bytes = []; rest = []; terminal = t }))
    else done none
read_from d fuel length read (event ∷ events) t =
    let go : ℕ → Terminal → Outcome (Option Answer) = λ n t'. read_from d fuel length n events t' in
    let ended : Terminal → Answer =
      λ t'. record { result = read + 1; bytes = event.ascii ∷ []; rest = events; terminal = t' } in
    let after : Terminal → Outcome (Option Answer) = λ t'.
      if event.ascii == b'\n'
      then done (some (ended t'))
      else (go (read + 1) t' >>= λ a. done (keep_byte event.ascii a)) in
    let typed = printf d fuel percent_c 0 (event.ascii ∷ []) t >>= after in
    if read == length
    then done (some (record { result = length; bytes = []; rest = event ∷ events; terminal = t }))
    else if event.pressed
    then typed
    else go read t

unfoldable pub read : Display → ℕ → ℕ → List KeyboardEvent → Terminal → Outcome (Option Answer)
read d fuel length events t = read_from d fuel length 0 events t

-- `write` of the bytes from the buffer on.
unfoldable pub write : Display → ℕ → NodeType → Bytes → ℕ → Terminal → Outcome (ℕ × Terminal)
write d fuel type buffer length t =
    let written : Outcome (ℕ × Terminal) =
      puts d fuel buffer (some length) white (rgb 0 0 0) t >>= λ t'. done (length, t') in
    if is_directory type then done (0, t) else written
