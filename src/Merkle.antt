-- ===== src/Merkle.antt =====
-- core/merkle: node.go, tree_builder.go, tree.go, proof.go.
-- A pointer is an address of a store of nodes, which only grows; `none` is the nil pointer.
pub mod Proof
pub mod Shape
pub mod Repr
pub mod Roots
pub mod Build
pub mod Leaves
pub mod Walk
pub mod Levels
pub mod Position
pub mod Validate
pub mod ProofAt
pub mod RoundTrip
mod Tests
use g_storage_client.Prelude.{
  ℕ, zero, suc, ◌/◌, ◌%◌, Bool, true, false, Option, none, some, List, [], ◌∷◌, ◌++◌, ltb, leb,
  ◌==◌, if◌then◌else◌, length,
}

-- common.Hash, as its bytes.
abbrev pub Hash : Type 0
Hash = List ℕ

pub record Node : Type 0 where
  pub parent : Option ℕ
  pub left : Option ℕ
  pub right : Option ℕ
  pub hash : Hash

pub record Heap : Type 0 where
  pub cells : ℕ → Node
  pub next : ℕ

abbrev pub update : (ℕ → Node) → ℕ → Node → ℕ → Node
update c a n b = if a == b then n else c b

unfoldable pub alloc : Node → Heap → ℕ × Heap
alloc n h = (h.next, record { cells = update h.cells h.next n; next = suc h.next })

unfoldable pub set_parent : ℕ → ℕ → Heap → Heap
set_parent a p h = record h { cells = update h.cells a (record (h.cells a) { parent = some p }) }

unfoldable pub new_node : Hash → Heap → ℕ × Heap
unfolding alloc
new_node hash h = alloc (record { parent = none; left = none; right = none; hash = hash }) h

abbrev eq_pointer : Option ℕ → ℕ → Bool
eq_pointer none a = false
eq_pointer (some b) a = b == a

unfoldable pub is_left_side : Heap → ℕ → Bool
is_left_side h n = elim ((h.cells n).parent) [
  | none ↦ false
  | some p ↦ eq_pointer (h.cells p).left n
]

pub record TreeBuilder : Type 0 where
  pub heap : Heap
  pub leaf_nodes : List ℕ

pub record Tree : Type 0 where
  pub heap : Heap
  pub root : ℕ
  pub leaf_nodes : List ℕ

-- `var builder TreeBuilder`, over a store with no node yet.
unfoldable pub empty_builder : TreeBuilder
empty_builder = record {
  heap = record {
    cells = λ _. record { parent = none; left = none; right = none; hash = [] };
    next = 0;
  };
  leaf_nodes = [];
}

unfoldable pub append_hash : Hash → TreeBuilder → TreeBuilder
unfolding new_node
append_hash hash b =
    let (a, h) = new_node hash b.heap in record { heap = h; leaf_nodes = b.leaf_nodes ++ a ∷ [] }

unfoldable pub root_hash : Tree → Hash
root_hash t = (t.heap.cells t.root).hash

abbrev pub move_to_back : List ℕ → List ℕ
move_to_back [] = []
move_to_back (a ∷ queue) = queue ++ a ∷ []

-- crypto.Keccak256Hash of the concatenation of its arguments.
module _ (keccak256 : List ℕ → Hash) where
  unfoldable pub new_leaf_node : List ℕ → Heap → ℕ × Heap
  unfolding alloc
  new_leaf_node content h =
      alloc (record { parent = none; left = none; right = none; hash = keccak256 content }) h

  unfoldable pub new_interior_node : ℕ → ℕ → Heap → ℕ × Heap
  unfolding alloc set_parent
  new_interior_node left right h =
      let node : Node = record {
        parent = none;
        left = some left;
        right = some right;
        hash = keccak256 ((h.cells left).hash ++ (h.cells right).hash);
      } in
      let (a, g) = alloc node h in (a, set_parent right a (set_parent left a g))

  unfoldable pub append : List ℕ → TreeBuilder → TreeBuilder
  unfolding new_leaf_node
  append content b =
      let (a, h) = new_leaf_node content b.heap in
      record { heap = h; leaf_nodes = b.leaf_nodes ++ a ∷ [] }

  -- Append for each of a list of contents.
  unfoldable pub append_all : List (List ℕ) → TreeBuilder → TreeBuilder
  append_all [] b = b
  append_all (content ∷ contents) b = append_all contents (append content b)

  -- The first `for` of Build: the leaves are taken two by two, and a last single one stays.
  unfoldable pub pair_leaves : List ℕ → List ℕ → Heap → List ℕ × Heap
  pair_leaves [] queue h = (queue, h)
  pair_leaves (a ∷ []) queue h = (queue ++ a ∷ [], h)
  pair_leaves (l ∷ r ∷ leaves) queue h =
      let (a, g) = new_interior_node l r h in pair_leaves leaves (queue ++ a ∷ []) g

  -- The inner `for`, with the rounds left. `none`: Remove of a missing front panics.
  unfoldable pub combine : ℕ → List ℕ → Heap → Option (List ℕ × Heap)
  combine zero queue h = some (queue, h)
  combine (suc k) [] h = none
  combine (suc k) (l ∷ []) h = none
  combine (suc k) (l ∷ r ∷ queue) h =
      let (a, g) = new_interior_node l r h in combine k (queue ++ a ∷ []) g

  -- One round of the outer `for`.
  unfoldable pub build_round : List ℕ → Heap → Option (List ℕ × Heap)
  build_round queue h =
      let n = length queue in
      elim (combine (n / 2) queue h) [
        | none ↦ none
        | some (q, g) ↦ some (if ltb 0 (n % 2) then move_to_back q else q, g)
      ]

  -- `none` also when the fuel runs out.
  unfoldable pub build_loop : ℕ → List ℕ → Heap → Option (List ℕ × Heap)
  build_loop zero queue h = none
  build_loop (suc f) queue h = elim (leb (length queue) 1) [
    | true ↦ some (queue, h)
    | false ↦ elim (build_round queue h) [ none ↦ none | some (q, g) ↦ build_loop f q g ]
  ]

  -- `some none` is the nil tree of an empty builder.
  unfoldable pub build_from : List ℕ → Heap → Option (Option Tree)
  build_from [] heap = some none
  build_from (a ∷ rest) heap =
      let (queue, h) = pair_leaves (a ∷ rest) [] heap in
      elim (build_loop (suc (length (a ∷ rest))) queue h) [
        | some (root ∷ _, g) ↦ some (some (record { heap = g; root = root; leaf_nodes = a ∷ rest }))
        | _ ↦ none
      ]

  unfoldable pub build : TreeBuilder → Option (Option Tree)
  unfolding build_from
  build b = build_from b.leaf_nodes b.heap
