-- ===== src/Merkle/Roots.antt =====
-- core/merkle: the queue of Build holds the roots of trees that share no node.
use g_storage_client.Prelude.{ℕ, ◌≤◌, sym, ◌≢◌, List, [], ◌∷◌, ◌++◌, arith, All, All-append}
use g_storage_client.Merkle.{Hash, Heap, new_interior_node}
use g_storage_client.Merkle.Shape.{Shape, node, addr}
use g_storage_client.Merkle.Repr.{
  IsBelow-addr, IsBelow-mono, IsRoot, Joined, new_interior_node-Joined, Repr-Extends, Repr-hash,
}

-- The tree's root has another address than all of `ts`.
abbrev pub IsFresh : ℕ → List Shape → Type 0
IsFresh a [] = Unit
IsFresh a (t ∷ ts) = (a ≢ addr t) × IsFresh a ts

abbrev pub Distinct : List Shape → Type 0
Distinct [] = Unit
Distinct (t ∷ ts) = IsFresh (addr t) ts × Distinct ts

IsFresh-concat :
    (a : ℕ) (ts : List Shape) (u : Shape) → IsFresh a ts → a ≢ addr u → IsFresh a (ts ++ u ∷ [])
IsFresh-concat a [] u h e = (e, tt)
IsFresh-concat a (t ∷ ts) u h e = (h.0, IsFresh-concat a ts u h.1 e)

Distinct-concat :
    (ts : List Shape) (u : Shape) → Distinct ts → IsFresh (addr u) ts → Distinct (ts ++ u ∷ [])
Distinct-concat [] u h f = (tt, tt)
Distinct-concat (t ∷ ts) u h f =
    (IsFresh-concat (addr t) ts u h.0 (λ e. f.0 (sym e)), Distinct-concat ts u h.1 f.1)

module _ (keccak256 : List ℕ → Hash) where
  pub record Roots (h : Heap) (ts : List Shape) : Type 0 where
    pub all : All (IsRoot keccak256 h) ts
    pub distinct : Distinct ts

  pub Roots-tail : (h : Heap) (t : Shape) (ts : List Shape) → Roots h (t ∷ ts) → Roots h ts
  Roots-tail h t ts r = record { all = r.all.1; distinct = r.distinct.1 }

  pub Roots-move :
      (h : Heap) (t : Shape) (ts : List Shape) → Roots h (t ∷ ts) → Roots h (ts ++ t ∷ [])
  Roots-move h t ts r = record {
    all = All-append (IsRoot keccak256 h) ts (t ∷ []) r.all.1 (r.all.0, tt);
    distinct = Distinct-concat ts t r.distinct.1 r.distinct.0;
  }

  IsFresh-of_below :
      (h : Heap) (a : ℕ) (ts : List Shape) → h.next ≤ a → All (IsRoot keccak256 h) ts → IsFresh a ts
  IsFresh-of_below h a [] e r = tt
  IsFresh-of_below h a (t ∷ ts) e r = (
    λ same. absurd (omega (arith, same, IsBelow-addr h.next t r.0.below)),
    IsFresh-of_below h a ts e r.1,
  )

  pub Roots-concat :
      (h : Heap) (ts : List Shape) (u : Shape)
      → Roots h ts
      → IsRoot keccak256 h u
      → IsFresh (addr u) ts
      → Roots h (ts ++ u ∷ [])
  Roots-concat h ts u r new f = record {
    all = All-append (IsRoot keccak256 h) ts (u ∷ []) r.all (new, tt);
    distinct = Distinct-concat ts u r.distinct f;
  }

  module _ (l r : Shape) (h h' : Heap) (j : Joined keccak256 (addr l) (addr r) h h') where
    -- The other roots stay roots.
    All-Joined :
        (ts : List Shape)
        → All (IsRoot keccak256 h) ts
        → IsFresh (addr l) ts
        → IsFresh (addr r) ts
        → All (IsRoot keccak256 h') ts
    All-Joined [] a fl fr = tt
    All-Joined (t ∷ ts) a fl fr =
        let low = IsBelow-addr h.next t a.0.below in
        (
          record {
            repr = Repr-Extends keccak256 h.next h.cells h'.cells t j.extends a.0.below a.0.repr;
            below = IsBelow-mono h.next h'.next t (omega (arith, j.grown)) a.0.below;
            orphan = cc (j.others (addr t) low (λ e. fl.0 (sym e)) (λ e. fr.0 (sym e)), a.0.orphan);
          },
          All-Joined ts a.1 fl.1 fr.1,
        )

    joined-IsRoot :
        IsRoot keccak256 h l
        → IsRoot keccak256 h r
        → addr l ≢ addr r
        → IsRoot keccak256 h' (node h.next l r)
    joined-IsRoot rl rr ne = record {
      repr = (
        cc (
          j.new_hash,
          Repr-hash keccak256 h.cells l rl.repr,
          Repr-hash keccak256 h.cells r rr.repr,
        ),
        j.new_left,
        j.new_right,
        j.left_parent,
        j.right_parent,
        ne,
        Repr-Extends keccak256 h.next h.cells h'.cells l j.extends rl.below rl.repr,
        Repr-Extends keccak256 h.next h.cells h'.cells r j.extends rr.below rr.repr,
      );
      below = (
        omega (arith, j.grown),
        IsBelow-mono h.next h'.next l (omega (arith, j.grown)) rl.below,
        IsBelow-mono h.next h'.next r (omega (arith, j.grown)) rr.below,
      );
      orphan = j.new_orphan;
    }

    pub Roots-Joined :
        (ts : List Shape) → Roots h (l ∷ r ∷ ts) → Roots h' (ts ++ node h.next l r ∷ [])
    Roots-Joined ts q =
        Roots-concat h' ts (node h.next l r)
          (record {
            all = All-Joined ts q.all.1.1 q.distinct.0.1 q.distinct.1.0;
            distinct = q.distinct.1.1;
          })
          (joined-IsRoot q.all.0 q.all.1.0 q.distinct.0.0)
          (IsFresh-of_below h h.next ts (omega arith) q.all.1.1)

  -- The step that both loops of Build make.
  pub Roots-join :
      (l r : Shape) (ts : List Shape) (h : Heap)
      → Roots h (l ∷ r ∷ ts)
      → Roots (new_interior_node keccak256 (addr l) (addr r) h).1 (ts ++ node h.next l r ∷ [])
  Roots-join l r ts h q =
      Roots-Joined l r h (new_interior_node keccak256 (addr l) (addr r) h).1
        (new_interior_node-Joined keccak256 (addr l) (addr r) h
          (IsBelow-addr h.next l q.all.0.below) (IsBelow-addr h.next r q.all.1.0.below)
          q.all.0.orphan q.all.1.0.orphan)
        ts q
