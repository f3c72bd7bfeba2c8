-- ===== src/Hash/Tests.antt =====
-- The theorems of the hash trees at inputs that meet their hypotheses; a value is a number.
use airdcpp_core.Base.{
  ◌<◌, List, zero, suc, Bytes, ℕ, ◌+◌, ◌*◌, ◌≡◌, refl, [], ◌∷◌, arith, some, none,
}
use airdcpp_core.Hash.Merkle.{split_at, calc_root, MerkleTree, update, finalize}
use airdcpp_core.Hash.Merkle.Counter.{added, counted, added-counted}
use airdcpp_core.Hash.Merkle.Reference.{root_over}
use airdcpp_core.Hash.Merkle.Whole.{AreLeaves}
use airdcpp_core.Hash.Merkle.Final.{finalize-added}
use airdcpp_core.Hash.Merkle.Binary.{raised_size}
use airdcpp_core.Hash.Merkle.Pieces.{update-append}
use airdcpp_core.Hash.Merkle.Root.{calc_root-some}

abbrev combine : ℕ → ℕ → ℕ
combine a b = 10 * a + b

-- Seven base blocks under leaves of two: three leaves, and a pending block.
seven_blocks : added combine (λ i. i) 1 2 7 ≡ record {
  blocks = (6, 1) ∷ [];
  leaves = 1 ∷ 23 ∷ 45 ∷ [];
  root = none;
  file_size = 0;
  block_size = 2;
}
seven_blocks = added-counted combine (λ i. i) 1 1 7 (omega arith)

added-counted_example : added combine (λ i. i) 1024 2048 7 ≡ counted combine (λ i. i) 1024 1 7
added-counted_example = added-counted combine (λ i. i) 1024 1 7 (omega arith)

-- Seven bytes under blocks of one byte and leaves of two: the root combines all.
root_of_seven :
    (finalize combine 1
      (λ d. elim d [ [] ↦ 0 | x ∷ _ ↦ x ])
      (record {
        blocks = (6, 1) ∷ [];
        leaves = 1 ∷ 23 ∷ 45 ∷ [];
        root = none;
        file_size = 7;
        block_size = 2;
      })).root
    ≡ some (combine (combine 1 23) (combine 45 6))
unfolding finalize
root_of_seven = refl

abbrev start : MerkleTree ℕ
start = record { blocks = []; leaves = []; root = none; file_size = 0; block_size = 4 }

abbrev first_byte : Bytes → ℕ
first_byte [] = 0
first_byte (x ∷ xs) = x

update-append_example :
    update combine 2 first_byte
      (5 ∷ 6 ∷ 7 ∷ [])
      (update combine 2 first_byte (1 ∷ 2 ∷ 3 ∷ 4 ∷ []) start)
    ≡ update combine 2 first_byte (1 ∷ 2 ∷ 3 ∷ 4 ∷ 5 ∷ 6 ∷ 7 ∷ []) start
update-append_example =
    update-append combine 2 first_byte 1 1 5 (2 ∷ 3 ∷ 4 ∷ []) (6 ∷ 7 ∷ []) start (omega arith) refl

abbrev three_leaves : MerkleTree ℕ
three_leaves = record {
  blocks = [];
  leaves = 1 ∷ 2 ∷ 3 ∷ [];
  root = none;
  file_size = 11;
  block_size = 4;
}

calc_root-some_example : (v : ℕ) × ((calc_root combine three_leaves).root ≡ some v)
calc_root-some_example =
    calc_root-some combine three_leaves (omega arith) (omega arith) (omega arith)

abbrev first_of : ℕ → ℕ
first_of i = i

-- Three base blocks of two bytes, the last with one byte, under leaves of two blocks.
abbrev two_leaves : List ℕ
two_leaves = combine 0 1 ∷ 2 ∷ []

too_far : (q : ℕ) → ¬ (suc (suc q) * 2 < 3)
too_far q h = omega (arith, h)

two_leaves-AreLeaves : AreLeaves combine first_of 2 1 3 two_leaves
unfolding split_at
two_leaves-AreLeaves zero h = refl
two_leaves-AreLeaves (suc zero) h = refl
two_leaves-AreLeaves (suc (suc q)) h = elim (too_far q h) [ ]

-- Seven base blocks of two bytes, the last with one.
finalize-added_example :
    (finalize combine 2 first_byte
      (record (added combine first_of 2 (raised_size 1 2) 7) { file_size = 13 })).root
    ≡ some (root_over combine first_of 0 7)
finalize-added_example =
    finalize-added combine first_of 2 1 7 13 first_byte (omega arith) (omega arith) (omega arith)
      (omega arith)
