-- ===== src/Merkle/Repr.antt =====
-- core/merkle: when a node of the store is the root of a given tree, and how newInteriorNode
-- keeps the trees apart. A node below a root has a parent, and a root has none.
use g_storage_client.Prelude.{ℕ, suc, ◌≤◌, ◌<◌, ◌≡◌, refl, ◌≢◌, none, some, List, ◌++◌, arith}
use g_storage_client.Merkle.{Hash, Node, Heap, new_interior_node}
use g_storage_client.Merkle.Shape.{Shape, leaf, node, addr, hash_of}

-- What later stores keep of the first `n` nodes.
pub record Extends (n : ℕ) (c c' : ℕ → Node) : Type 0 where
  pub hashes : (b : ℕ) → b < n → (c' b).hash ≡ (c b).hash
  pub lefts : (b : ℕ) → b < n → (c' b).left ≡ (c b).left
  pub rights : (b : ℕ) → b < n → (c' b).right ≡ (c b).right
  pub parents : (b a : ℕ) → b < n → (c b).parent ≡ some a → (c' b).parent ≡ some a

-- All addresses of the tree are below `n`.
abbrev pub IsBelow : ℕ → Shape → Type 0
IsBelow n (leaf a x) = a < n
IsBelow n (node a l r) = (a < n) × IsBelow n l × IsBelow n r

pub IsBelow-addr : (n : ℕ) (t : Shape) → IsBelow n t → addr t < n
IsBelow-addr n (leaf a x) h = h
IsBelow-addr n (node a l r) h = h.0

pub IsBelow-mono : (n m : ℕ) (t : Shape) → n ≤ m → IsBelow n t → IsBelow m t
IsBelow-mono n m (leaf a x) e h = omega arith
IsBelow-mono n m (node a l r) e h =
    (omega arith, IsBelow-mono n m l e h.1, IsBelow-mono n m r e h.2)

module _ (keccak256 : List ℕ → Hash) where
  abbrev pub Repr : (ℕ → Node) → Shape → Type 0
  Repr c (leaf a x) = (c a).hash ≡ x
  Repr c (node a l r) =
      ((c a).hash ≡ keccak256 (hash_of keccak256 l ++ hash_of keccak256 r))
      × ((c a).left ≡ some (addr l))
      × ((c a).right ≡ some (addr r))
      × ((c (addr l)).parent ≡ some a)
      × ((c (addr r)).parent ≡ some a)
      × (addr l ≢ addr r)
      × Repr c l
      × Repr c r

  pub Repr-hash : (c : ℕ → Node) (t : Shape) → Repr c t → (c (addr t)).hash ≡ hash_of keccak256 t
  Repr-hash c (leaf a x) h = h
  Repr-hash c (node a l r) h = h.0

  pub Repr-Extends :
      (n : ℕ) (c c' : ℕ → Node) (t : Shape) → Extends n c c' → IsBelow n t → Repr c t → Repr c' t
  Repr-Extends n c c' (leaf a x) e b h = cc (e.hashes a b)
  Repr-Extends n c c' (node a l r) e b h = (
    cc (e.hashes a b.0),
    cc (e.lefts a b.0),
    cc (e.rights a b.0),
    e.parents (addr l) a (IsBelow-addr n l b.1) h.3,
    e.parents (addr r) a (IsBelow-addr n r b.2) h.4,
    h.5,
    Repr-Extends n c c' l e b.1 h.6,
    Repr-Extends n c c' r e b.2 h.7,
  )

  -- A tree of the queue: its root has no parent.
  pub record IsRoot (h : Heap) (t : Shape) : Type 0 where
    pub repr : Repr h.cells t
    pub below : IsBelow h.next t
    pub orphan : (h.cells (addr t)).parent ≡ none

  -- What newInteriorNode does to the store.
  pub record Joined (l r : ℕ) (h h' : Heap) : Type 0 where
    pub grown : h'.next ≡ suc h.next
    pub extends : Extends h.next h.cells h'.cells
    pub new_hash : (h'.cells h.next).hash ≡ keccak256 ((h.cells l).hash ++ (h.cells r).hash)
    pub new_left : (h'.cells h.next).left ≡ some l
    pub new_right : (h'.cells h.next).right ≡ some r
    pub new_orphan : (h'.cells h.next).parent ≡ none
    pub left_parent : (h'.cells l).parent ≡ some h.next
    pub right_parent : (h'.cells r).parent ≡ some h.next
    pub others : (b : ℕ) → b < h.next → b ≢ l → b ≢ r → (h'.cells b).parent ≡ (h.cells b).parent

  module _ (l r : ℕ) (h : Heap) (hl : l < h.next) (hr : r < h.next) where
    pub new_interior_node-addr : (new_interior_node keccak256 l r h).0 ≡ h.next
    unfolding new_interior_node
    new_interior_node-addr = refl

    pub new_interior_node-Joined :
        (h.cells l).parent ≡ none
        → (h.cells r).parent ≡ none
        → Joined l r h (new_interior_node keccak256 l r h).1
    unfolding new_interior_node
    new_interior_node-Joined pl pr = record {
      grown = refl;
      extends = record {
        hashes = λ b hb. ground arith;
        lefts = λ b hb. ground arith;
        rights = λ b hb. ground arith;
        parents = λ b a hb p. ground arith;
      };
      new_hash = ground arith;
      new_left = ground arith;
      new_right = ground arith;
      new_orphan = ground arith;
      left_parent = ground arith;
      right_parent = ground arith;
      others = λ b hb nl nr. ground arith;
    }
