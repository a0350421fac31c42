-- ===== src/Core/SegmentRoots.antt =====
-- core: SegmentRoot gives the reference Merkle root over its chunks.
use mathlib.Core.List.{append_assoc, append-nil}
use g_storage_client.Prelude.{
  ℕ, zero, suc, ◌+◌, ◌*◌, ◌<◌, ◌≡◌, refl, sym, ap, ◌∙◌, subst, true, false, some, List, [], ◌∷◌,
  ◌++◌, map, ltb, leb, length, length-append, length-drop, length-map, take, drop, replicate, arith,
}
use g_storage_client.Prelude.Slices.{drop-drop}
use g_storage_client.Prelude.Groups.{groups, groups_step, length-groups_pos}
use g_storage_client.Merkle.{
  Hash, TreeBuilder, Tree, empty_builder, append, append_all, append_hash, build, root_hash,
}
use g_storage_client.Merkle.Levels.{merkle_root}
use g_storage_client.Merkle.RoundTrip.{
  Holds, empty_builder-Holds, append_hash-Holds, append_all-Holds, build-merkle_root,
}
use g_storage_client.Core.Segments.{
  segment_loop, empty_chunk_hash, append_empty_chunks, segment_root,
}

-- The reference for the leaf hashes: the hashes of the chunks of 256 bytes.
abbrev pub chunk_hashes : (List ℕ → Hash) → ℕ → List ℕ → List Hash
chunk_hashes keccak256 f bytes = map keccak256 (groups f 256 bytes)

module _ (keccak256 : List ℕ → Hash) where
  segment_loop_lem :
      (m f offset : ℕ) (chunks : List ℕ) (b : TreeBuilder)
      → length chunks ≡ offset + 256 * m
      → m < f
      → segment_loop keccak256 f chunks offset b
        ≡ some (append_all keccak256 (groups m 256 (drop offset chunks)) b)
  unfolding segment_loop append_all
  segment_loop_lem m zero offset chunks b e h = absurd (omega arith)
  segment_loop_lem zero (suc f) offset chunks b e h =
      let ended : ltb offset (length chunks) ≡ false = ground arith in rw (ended, segment_loop) refl
  segment_loop_lem (suc m) (suc f) offset chunks b e h =
      let more : ltb offset (length chunks) ≡ true = ground arith in
      let whole : leb (offset + 256) (length chunks) ≡ true = ground arith in
      let rest = drop offset chunks in
      rw (more, whole, segment_loop)
        (segment_loop_lem m f (offset + 256) chunks (append keccak256 (take 256 rest) b)
            (omega (arith, e)) (omega arith)
          ∙ ap
              (λ z.
                some (append_all keccak256 (groups m 256 z) (append keccak256 (take 256 rest) b)))
              (sym (drop-drop 256 offset chunks))
          ∙ ap (λ z. some (append_all keccak256 z b))
              (sym (groups_step m 256 rest (omega (arith, length-drop offset chunks, e)))))

  append_empty_chunks-Holds :
      (n : ℕ) (b : TreeBuilder) (xs : List Hash)
      → Holds keccak256 b xs
      → Holds keccak256
          (append_empty_chunks keccak256 n b)
          (xs ++ replicate n (empty_chunk_hash keccak256))
  unfolding append_empty_chunks
  append_empty_chunks-Holds zero b xs h = subst (Holds keccak256 b) (sym (append-nil xs)) h
  append_empty_chunks-Holds (suc n) b xs h =
      let x = empty_chunk_hash keccak256 in
      subst (Holds keccak256 (append_empty_chunks keccak256 n (append_hash x b)))
        (append_assoc xs (x ∷ []) (replicate n x))
        (append_empty_chunks-Holds n (append_hash x b) (xs ++ x ∷ [])
          (append_hash-Holds keccak256 x b xs h))

  pub build-merkle_root_of :
      (b : TreeBuilder) (xs : List Hash)
      → Holds keccak256 b xs
      → 0 < length xs
      → (t : Tree) × (build keccak256 b ≡ some (some t)) × (root_hash t ≡ merkle_root keccak256 xs)
  build-merkle_root_of b [] h pos = absurd (omega arith)
  build-merkle_root_of b (x ∷ xs) h pos = build-merkle_root keccak256 b x xs h

  -- For a positive number m of whole chunks and any number of empty ones, SegmentRoot gives the
  -- reference root over the hashes of the chunks, followed by the hash of the empty chunk.
  pub segment_root-merkle_root :
      (m empties : ℕ) (chunks : List ℕ)
      → 0 < m
      → length chunks ≡ 256 * m
      → segment_root keccak256 chunks empties
        ≡ some (
            merkle_root keccak256
              (chunk_hashes keccak256 m chunks ++ replicate empties (empty_chunk_hash keccak256)))
  unfolding segment_root
  segment_root-merkle_root m empties chunks pos e =
      let b = append_all keccak256 (groups m 256 chunks) empty_builder in
      let h = append_empty_chunks-Holds empties b (chunk_hashes keccak256 m chunks) (
        append_all-Holds keccak256 (groups m 256 chunks) empty_builder []
          (empty_builder-Holds keccak256)) in
      let xs = chunk_hashes keccak256 m chunks ++ replicate empties (empty_chunk_hash keccak256) in
      let (t, built, root) = build-merkle_root_of (append_empty_chunks keccak256 empties b) xs h (
        omega (
          arith,
          length-append {0} (chunk_hashes keccak256 m chunks)
              (replicate empties (empty_chunk_hash keccak256)),
          length-map keccak256 (groups m 256 chunks),
          length-groups_pos m 256 chunks pos (omega (arith, e)),
        )) in
      rw
        (
          segment_loop_lem m (suc (length chunks)) 0 chunks empty_builder (omega (arith, e))
              (omega (arith, e)),
          built,
          segment_root,
        )
        (ap some root)
