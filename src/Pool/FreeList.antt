-- ===== src/Pool/FreeList.antt =====
-- The free list of `FixedBlockMemoryPool`, and what the constructor links.
use cpp_systems_playground.Prelude.{
  ℕ, zero, suc, ◌+◌, ◌*◌, ◌%◌, ◌^◌, ok, ◌>>=◌, leb, true, sym, ◌≤◌, ◌<◌, ◌≡◌, refl, ap, ◌∙◌, ◌≢◌,
  Option, none, some, List, [], ◌∷◌, arith, length, ltb, if◌then◌else◌, update, occurs, update_self,
  update_ne,
}
use native.Mathlib.Decide.{ℕ_discrete}
use cpp_systems_playground.Pool.FixedBlock.{align, link, link_from}

-- The free blocks in the order of the list that starts at a pointer.
abbrev pub Chain : (ℕ → Option ℕ) → Option ℕ → List ℕ → Type 0
Chain next start [] = start ≡ none
Chain next start (b ∷ fs) = (start ≡ some b) × Chain next (next b) fs

-- The addresses of `n` blocks from block `i` on.
unfoldable pub blocks : ℕ → ℕ → ℕ → List ℕ
blocks size i zero = []
blocks size i (suc n) = i * size ∷ blocks size (i + 1) n

pub length-blocks : (size i n : ℕ) → length (blocks size i n) ≡ n
unfolding blocks
length-blocks size i zero = refl
length-blocks size i (suc n) = ap suc (length-blocks size (i + 1) n)

-- Each block occurs once.
pub occurs-blocks_low : (size i n b : ℕ) → b < i * size → occurs b (blocks size i n) ≡ 0
unfolding blocks
occurs-blocks_low size i zero b h = refl
occurs-blocks_low size i (suc n) b h =
    ground (arith, occurs-blocks_low size (i + 1) n b (omega arith))

pub occurs-blocks-le : (size i n b : ℕ) → 0 < size → occurs b (blocks size i n) ≤ 1
unfolding blocks
occurs-blocks-le size i zero b h = omega arith
occurs-blocks-le size i (suc n) b h = elim (ℕ_discrete (i * size) b) [
  | yes here ↦ ground (arith, occurs-blocks_low size (i + 1) n b (omega arith))
  | no other ↦ ground (arith, occurs-blocks-le size (i + 1) n b h)
]

-- A write to a block outside the list leaves the list.
pub update-Chain :
    (next : ℕ → Option ℕ) (b : ℕ) (v start : Option ℕ) (fs : List ℕ)
    → occurs b fs ≡ 0
    → Chain next start fs
    → Chain (update next b v) start fs
update-Chain next b v start [] h c = c
update-Chain next b v start (f ∷ fs) h c =
    let apart : b ≢ f = ground arith in
    (c.0, rw (update_ne next b v f apart) (update-Chain next b v (next f) fs (ground arith) c.1))

-- What the rounds of the constructor link where nothing wraps.
unfoldable pub linked_from : ℕ → ℕ → (ℕ → Option ℕ) → ℕ → ℕ → ℕ → Option ℕ
linked_from size count next zero i = next
linked_from size count next (suc n) i =
    linked_from size count
      (update next (i * size) (if ltb (i + 1) count then some ((i + 1) * size) else none)) n (i + 1)

pub linked_from_low :
    (size count : ℕ) (next : ℕ → Option ℕ) (n i b : ℕ)
    → 0 < size
    → b < i * size
    → linked_from size count next n i b ≡ next b
unfolding linked_from
linked_from_low size count next zero i b pos h = refl
linked_from_low size count next (suc n) i b pos h =
    linked_from_low size count
      (update next (i * size) (if ltb (i + 1) count then some ((i + 1) * size) else none)) n (i + 1)
      b pos (omega arith)
    ∙ update_ne next (i * size) _ b (omega arith)

pub linked_from-Chain :
    (size count : ℕ) (next : ℕ → Option ℕ) (n i : ℕ)
    → 0 < size
    → i + n ≡ count
    → Chain
        (linked_from size count next n i)
        (if ltb i count then some (i * size) else none)
        (blocks size i n)
unfolding linked_from blocks
linked_from-Chain size count next zero i pos e = ground arith
linked_from-Chain size count next (suc n) i pos e =
    let value = if ltb (i + 1) count then some ((i + 1) * size) else none in
    let linked =
      linked_from_low size count (update next (i * size) value) n (i + 1) (i * size) pos
        (omega arith) in
    (
      ground arith,
      rw (linked, update_self next (i * size) value)
          (linked_from-Chain size count (update next (i * size) value) n (i + 1) pos (omega arith)),
    )

link_value :
    (size count bytes n i : ℕ)
    → i + suc n ≡ count
    → bytes ≡ i * size + size + n * size
    → bytes < 2 ^ 64
    → (if ltb (i + 1) count then some ((i + 1) * size % 2 ^ 64) else none)
      ≡ (if ltb (i + 1) count then some ((i + 1) * size) else none)
link_value size count bytes n i e total fits =
    ap (λ a. if ltb (i + 1) count then some a else none) (omega (arith, total, fits))

-- Where the blocks fit in a `size_t`, the constructor writes no pointer outside of the buffer.
pub link_from-linked :
    (size count bytes : ℕ) (next : ℕ → Option ℕ) (n i : ℕ)
    → align ≤ size
    → i + n ≡ count
    → bytes ≡ size * count
    → bytes < 2 ^ 64
    → link_from bytes size count next n i ≡ ok (linked_from size count next n i)
unfolding link_from link linked_from
link_from-linked size count bytes next zero i room e whole fits = refl
link_from-linked size count bytes next (suc n) i room e whole fits =
    let total : bytes ≡ i * size + size + n * size =
      whole ∙ ap (λ c. size * c) (sym e) ∙ ground arith in
    let here : i * size % 2 ^ 64 ≡ i * size = omega (arith, total, fits) in
    let inside : leb (i * size + align) bytes ≡ true = ground (arith, total, room) in
    let value = if ltb (i + 1) count then some ((i + 1) * size) else none in
    let last : (if ltb (i + 1) count then some ((i + 1) * size % 2 ^ 64) else none) ≡ value =
      link_value size count bytes n i e total fits in
    rw (here, inside, last, ◌>>=◌)
      (link_from-linked size count bytes (update next (i * size) value) n (i + 1) room
        (omega (arith, e)) whole fits)
