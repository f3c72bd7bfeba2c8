-- ===== src/Hash/Merkle.antt =====
-- `MerkleTree` of airdcpp/hash/value/MerkleTree.h. The hasher is a parameter: `hash` is its value of the
-- byte 0 and a block of data, `combine` that of the byte 1 and two values.
use airdcpp_core.Base.{
  ℕ, zero, suc, ◌+◌, ◌-◌, ◌*◌, ◌/◌, ◌^◌, Bool, true, false, not, List, [], ◌∷◌, ◌++◌, ltb, leb,
  ◌==◌, ◌&&◌, if◌then◌else◌, min, max, length, take, drop, Option, none, some, get_elem?, Bytes,
}
pub mod Binary
pub mod Counter
pub mod Sizes
pub mod Pieces
pub mod Root
pub mod Reference
pub mod Joined
pub mod Levels
pub mod Whole
pub mod Places
pub mod Final

pub record MerkleTree {ℓ} (V : Type ℓ) : Type ℓ where
  -- The last block comes first; each has its value and the size of its data.
  pub blocks : List (V × ℕ)
  pub leaves : List V
  pub root : Option V
  pub file_size : ℕ
  pub block_size : ℕ

unfoldable pub calc_block_size_loop : ℕ → ℕ → ℕ → ℕ → ℕ
calc_block_size_loop zero max_hashes file_size size = size
calc_block_size_loop (suc n) max_hashes file_size size =
    let more = calc_block_size_loop n max_hashes file_size (size * 2) in
    if ltb (max_hashes * size) file_size then more else size

-- `calcBlockSize`: each doubling adds to the size, so that the size of the file is enough rounds.
unfoldable pub calc_block_size : ℕ → ℕ → ℕ → ℕ
unfolding calc_block_size_loop
calc_block_size base file_size max_levels =
    calc_block_size_loop file_size (2 ^ (max_levels - 1)) file_size base

unfoldable pub calc_blocks : ℕ → ℕ → ℕ
calc_blocks file_size block_size = max ((file_size + block_size - 1) / block_size) 1

abbrev pub is_empty {ℓ} : {A : Type ℓ} → List A → Bool
is_empty [] = true
is_empty _ = false

module _ {ℓ} {V : Type ℓ} (combine : V → V → V) where
  -- The loop of `reduceBlocks`. Each round takes a block away, so that as many rounds as there are
  -- blocks are enough.
  unfoldable pub reduce_blocks : ℕ → ℕ → List V → List (V × ℕ) → List V × List (V × ℕ)
  reduce_blocks zero size ls bs = (ls, bs)
  reduce_blocks (suc n) size ls [] = (ls, [])
  reduce_blocks (suc n) size ls (b ∷ []) = (ls, b ∷ [])
  reduce_blocks (suc n) size ls (b ∷ a ∷ bs) =
      let both = combine a.0 b.0 in
      let leaf = reduce_blocks n size (ls ++ both ∷ []) bs in
      let block = reduce_blocks n size ls ((both, a.1 * 2) ∷ bs) in
      if a.1 == b.1 then if a.1 * 2 == size then leaf else block else (ls, b ∷ a ∷ bs)

  -- A round of the loop of `update`, with the value of its block.
  unfoldable pub add_hash : ℕ → V → MerkleTree V → MerkleTree V
  unfolding reduce_blocks
  add_hash base v t =
      let bs = (v, base) ∷ t.blocks in
      let (ls, bs') = reduce_blocks (length bs) t.block_size t.leaves bs in
      if ltb base t.block_size
      then record t { leaves = ls; blocks = bs' }
      else record t { leaves = t.leaves ++ v ∷ [] }

  -- The `do` loop: at least one round, and as many as there are blocks.
  unfoldable pub update_loop : ℕ → ℕ → (Bytes → V) → Bytes → MerkleTree V → MerkleTree V
  unfolding add_hash
  update_loop zero base hash buf t = t
  update_loop (suc n) base hash buf t =
      let t' = add_hash base (hash (take base buf)) t in
      let rest = drop base buf in
      let more = update_loop n base hash rest t' in if is_empty rest then t' else more

  unfoldable pub update : ℕ → (Bytes → V) → Bytes → MerkleTree V → MerkleTree V
  unfolding update_loop
  update base hash buf t =
      let t' = update_loop (suc (length buf)) base hash buf t in
      if is_empty buf && not (is_empty t.leaves && is_empty t.blocks)
      then t
      else record t' { file_size = t.file_size + length buf }

  -- The loop of `finalize` over the blocks.
  unfoldable pub join_blocks : V × ℕ → List (V × ℕ) → V × ℕ
  join_blocks b [] = b
  join_blocks b (a ∷ bs) = join_blocks (combine a.0 b.0, a.1) bs

  -- The largest doubling of the block size that is below the length.
  unfoldable pub split_at : ℕ → ℕ → ℕ → ℕ
  split_at zero l len = l
  split_at (suc n) l len = let more = split_at n (l * 2) len in if ltb (l * 2) len then more else l

  abbrev pub combine_both : Option V → Option V → Option V
  combine_both (some a) (some b) = some (combine a b)
  combine_both _ _ = none

  -- `getHash`: `none` where the source reads behind the leaves. Both parts are shorter than the
  -- whole, so that one round more than the length is enough.
  unfoldable pub get_hash : ℕ → ℕ → List V → ℕ → ℕ → Option V
  unfolding split_at
  get_hash zero size ls start len = none
  get_hash (suc n) size ls start len =
      let l = split_at len size len in
      let left = get_hash n size ls start l in
      let right = get_hash n size ls (start + l) (len - l) in
      if leb len size then get_elem? ls (start / size) else combine_both left right

  unfoldable pub calc_root : MerkleTree V → MerkleTree V
  unfolding get_hash
  calc_root t = record t { root = get_hash (suc t.file_size) t.block_size t.leaves 0 t.file_size }

  unfoldable pub finalize : ℕ → (Bytes → V) → MerkleTree V → MerkleTree V
  unfolding update join_blocks calc_root
  finalize base hash t =
      let t' : MerkleTree V =
        (if is_empty t.leaves && is_empty t.blocks then update base hash [] t else t) in
      calc_root (elim t'.blocks [
        | [] ↦ t'
        | b ∷ bs ↦
            let b' = join_blocks b bs in
            record t' { leaves = t'.leaves ++ b'.0 ∷ []; blocks = b' ∷ [] }
      ])
