-- ===== src/Merkle/Tests.antt =====
-- core/merkle: runs at concrete inputs, with a stand-in for the hash.
use g_storage_client.Prelude.{ℕ, ◌≡◌, refl, some, List, [], ◌∷◌, arith, length}
use g_storage_client.Merkle.{
  Hash, Tree, TreeBuilder, append_hash, append_all, build, empty_builder, root_hash,
}
use g_storage_client.Merkle.Proof.{Proof, Verdict, proof_at, validate_hash, validate}
use g_storage_client.Merkle.Levels.{merkle_root}
use g_storage_client.Merkle.Validate.{validate_hash_single}
use g_storage_client.Merkle.RoundTrip.{
  Holds, empty_builder-Holds, append_hash-Holds, build-merkle_root, validate-proof_at,
}

-- An injective stand-in for Keccak-256.
abbrev test_hash : List ℕ → Hash
test_hash xs = length xs ∷ xs

abbrev contents : List (List ℕ)
contents = (1 ∷ []) ∷ (2 ∷ []) ∷ (3 ∷ []) ∷ (4 ∷ []) ∷ (5 ∷ []) ∷ []

abbrev builder : TreeBuilder
builder = append_hash (2 ∷ []) (append_hash (1 ∷ []) empty_builder)

builder-Holds : Holds test_hash builder ((1 ∷ []) ∷ (2 ∷ []) ∷ [])
builder-Holds =
    append_hash-Holds test_hash (2 ∷ []) (append_hash (1 ∷ []) empty_builder) ((1 ∷ []) ∷ [])
      (append_hash-Holds test_hash (1 ∷ []) empty_builder [] (empty_builder-Holds test_hash))

validate-proof_at_example :
    (t : Tree) × (p : Proof) × (build test_hash (append_all test_hash contents empty_builder)
      ≡ some (some t))
    × (proof_at t 4 ≡ some p)
    × (validate test_hash 0 p (root_hash t) (5 ∷ []) 4 (length contents) ≡ Verdict.valid)
validate-proof_at_example = validate-proof_at test_hash 0 contents 4 (5 ∷ []) refl (omega arith)

build-merkle_root_example :
    (t : Tree) × (build test_hash builder ≡ some (some t))
    × (root_hash t ≡ merkle_root test_hash ((1 ∷ []) ∷ (2 ∷ []) ∷ []))
build-merkle_root_example =
    build-merkle_root test_hash builder (1 ∷ []) ((2 ∷ []) ∷ []) builder-Holds

validate_hash_single_example :
    validate_hash test_hash 0 (record { lemma = (7 ∷ []) ∷ []; path = [] }) (9 ∷ []) (7 ∷ []) 0 5
    ≡ Verdict.valid
validate_hash_single_example = validate_hash_single test_hash 0 (9 ∷ []) (7 ∷ []) 5
