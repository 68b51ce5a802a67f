-- ===== src/ChunkArray/Tests.antt =====
-- Runs of the chunk array, and its theorems at a concrete array of two chunks.
use redlib.Prelude.{ℕ, ◌≡◌, refl, inl, inr, List, [], ◌∷◌, some, arith, get_elem?, length}
use redlib.ChunkArray.{Chunk, push, get, remove, count_all}
use redlib.ChunkArray.Packed.{items, Packed, get-items}
use redlib.ChunkArray.Push.{IsAppended, push-IsAppended}
use redlib.ChunkArray.Remove.{IsShortened, remove-IsShortened}

abbrev full_chunk : Chunk ℕ
full_chunk = record { slots = 5 ∷ 6 ∷ []; count = 2; chunk_capacity = 2 }

abbrev half_chunk : Chunk ℕ
half_chunk = record { slots = 7 ∷ 0 ∷ []; count = 1; chunk_capacity = 2 }

abbrev two_chunks : List (Chunk ℕ)
two_chunks = full_chunk ∷ half_chunk ∷ []

two_chunks-Packed : Packed 2 two_chunks
two_chunks-Packed = (refl, refl, omega arith, inl refl, (refl, refl, omega arith, inr refl, tt))

count_all-two_chunks : count_all two_chunks ≡ 3
unfolding count_all
count_all-two_chunks = refl

remove-two_chunks : (remove two_chunks 2).0 ≡ 2
unfolding remove
remove-two_chunks = refl

get-items_example : get two_chunks 2 ≡ get_elem? (items two_chunks) 2
get-items_example = get-items 2 two_chunks 2 two_chunks-Packed (omega arith)

push-IsAppended_example :
    (cs : List (Chunk ℕ)) × (push 0 two_chunks 8 ≡ some (length (items two_chunks), cs))
    × IsAppended 2 (items two_chunks) 8 cs
push-IsAppended_example =
    push-IsAppended 2 0 full_chunk (half_chunk ∷ []) 8 two_chunks-Packed (omega arith) (omega arith)
      (omega arith)

remove-IsShortened_example : IsShortened 2 (items two_chunks) 2 (remove two_chunks 2)
remove-IsShortened_example =
    remove-IsShortened 2 two_chunks 2 two_chunks-Packed (omega arith) (omega arith) (omega arith)
