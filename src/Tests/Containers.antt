-- ===== src/Tests/Containers.antt =====
-- The containers on small contents.
use umbra_os.Prelude.{ℕ, ◌≡◌, refl, none, some, List, [], ◌∷◌, arith, ◌==◌, if◌then◌else◌}
use umbra_os.Utils.RingBuffer.Queue
use umbra_os.Utils.RingBuffer.Queue.{Op, put, get}
use umbra_os.Utils.RingBuffer.{Ringbuffer}
use umbra_os.Utils.RingBuffer
use umbra_os.Utils.RingBuffer.Refine.{run, run_refines, new-Holds}
use umbra_os.Utils.HashMap
use umbra_os.Utils.HashMap.{StringHashMap, hash_key}
use umbra_os.Utils.HashMap.Lookup.{get-insert, or_else}
use umbra_os.Utils.LinkedList.{Node}
use umbra_os.Utils.LinkedList.Chain.{Chain}
use umbra_os.Utils.LinkedList.Prev.{pushes, pushes-Chain, Distinct}

abbrev ring : Ringbuffer ℕ
ring = RingBuffer.new (λ i. 0)

abbrev calls : List (Op ℕ)
calls = put 5 ∷ put 6 ∷ put 7 ∷ get ∷ get ∷ get ∷ []

-- Three writes to a ring of three cells keep the last two items.
run_refines_example : run 3 ring calls ≡ Queue.run 3 [] calls
run_refines_example = run_refines 3 ring [] calls (new-Holds 3 (λ i. 0) (omega arith))

run_reads : Queue.run 3 [] calls ≡ some 6 ∷ some 7 ∷ none ∷ []
unfolding Queue.run
run_reads = refl

abbrev table : StringHashMap ℕ
table = HashMap.new (λ i. [])

abbrev bin : List ℕ
bin = 98 ∷ 105 ∷ 110 ∷ []

get-insert_example : HashMap.get 256 (HashMap.insert 256 table bin 7) bin ≡ (
    if hash_key bin == hash_key bin
    then some (or_else (HashMap.get 256 table bin) 7)
    else HashMap.get 256 table bin)
get-insert_example = get-insert 256 table bin 7 bin

abbrev memory : ℕ → Node
memory a = record { value = 0; prev = 0; next = 0 }

abbrev cells : List (ℕ × ℕ)
cells = (16, 1) ∷ (32, 2) ∷ []

cells-Distinct : Distinct cells
cells-Distinct = (omega arith, (omega arith, tt), (omega arith, tt, tt))

cells-Chain : Chain (pushes memory cells).nodes (pushes memory cells).head cells
cells-Chain = pushes-Chain memory cells cells-Distinct
