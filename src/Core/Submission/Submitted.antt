-- ===== src/Core/Submission/Submitted.antt =====
-- core/flow.go: CreateSubmission covers the padded data, and its fee in contract/contract.go.
use native.Mathlib.Nat.{div-eq_of_lt}
use g_storage_client.Prelude.{
  ℕ, ◌+◌, ◌-◌, ◌*◌, ◌/◌, ◌^◌, ◌≤◌, ◌<◌, ◌≡◌, refl, sym, ap, ◌∙◌, subst, true, false, inl, inr, some,
  List, [], ◌∷◌, ltb, leb, length, take, drop, arith, Bool-cases, leb→le, ltb→lt,
}
use g_storage_client.Prelude.Powers.{pow_pos, pow_mono, pow-add}
use g_storage_client.Merkle.{Hash, empty_builder, root_hash}
use g_storage_client.Merkle.Levels.{merkle_root}
use g_storage_client.Parallel.{in_order}
use g_storage_client.Core.{num_splits, compute_padded_size, iterator_padded_size, split_nodes}
use g_storage_client.Core.Padding.{
  IsSplit, IsSplit-mono, sum, split_nodes-IsSplit, compute_padded_size-IsPadded,
}
use g_storage_client.Core.Data.{DataInMemory, num_chunks}
use g_storage_client.Core.Reads.{padded}
use g_storage_client.Core.Segments.{parallel_do, parallel_collect}
use g_storage_client.Core.SegmentRoots.{chunk_hashes}
use g_storage_client.Core.Submission.{
  SubmissionNode, Submission, log2, node_of, with_node, build_tree, create_segment_node,
  create_node, create_nodes, create_submission, sectors, fee,
}
use g_storage_client.Core.Submission.Nodes.{log2-pow, part, mul_assoc, batches-merkle_root}

minus_plus : (j : ℕ) → 10 ≤ j → j - 10 + 10 ≡ j
minus_plus j h = omega arith

leb-false : (j : ℕ) → leb 10 j ≡ false → j ≤ 10
leb-false j h = ground arith

over_segment : (j : ℕ) → ltb 1024 (2 ^ j) ≡ true → 10 ≤ j
over_segment j h = elim (Bool-cases (leb 10 j)) [
  | inl above ↦ leb→le 10 j above
  | inr below ↦ absurd (omega (arith, pow_mono j 10 (leb-false j below), ltb→lt 1024 (2 ^ j) h))
]

one_batch : (x : ℕ) → 0 < x → (x - 1) / x + 1 ≡ 1
one_batch x h = let z : (x - 1) / x ≡ 0 = div-eq_of_lt (omega arith) in omega (arith, z)

module _ (keccak256 : List ℕ → Hash) (d : DataInMemory) where
  -- The root of a node is the reference root over the hashes of its chunks.
  abbrev pub IsNode : ℕ → ℕ → SubmissionNode → Type 0
  IsNode at j node =
      (node.height ≡ j)
      × (node.root
          ≡ merkle_root keccak256 (
              chunk_hashes keccak256 (2 ^ j)
                (take (2 ^ j * 256) (drop (at * 256) (padded d.underlying d.padded_size)))))

  -- The nodes cover the chunks from one on, each of a power of two of them, with exponents that fall.
  abbrev pub Covers : ℕ → ℕ → ℕ → List SubmissionNode → Type 0
  Covers n at b [] = at ≡ n
  Covers n at b (node ∷ nodes) =
      (node.height < b)
      × IsNode at node.height node
      × Covers n (at + 2 ^ node.height) node.height nodes

  module _ (n : ℕ) (chunked : d.padded_size ≡ 256 * n)
      (fits : length d.underlying ≤ d.padded_size) where
    create_segment_node_lem :
        (at e m q j : ℕ)
        → 2 ^ e ≡ m
        → at + 2 ^ j ≤ n
        → q * m ≡ 2 ^ j
        → 0 < q
        → j < 64
        → (256 * 2 ^ j - 1) / (256 * m) + 1 ≡ q
        → (node : SubmissionNode) × (create_segment_node keccak256 d
              (at * 256)
              (256 * m)
              (256 * 2 ^ j)
            ≡ some node)
          × IsNode at j node
    unfolding create_segment_node
    create_segment_node_lem at e m q j power inside parts pos low tasks =
        let size : q * (m * 256) ≡ 2 ^ j * 256 = mul_assoc q m ∙ ap (λ (z : ℕ). z * 256) parts in
        let within : at * 256 + q * (m * 256) ≤ 256 * n = omega (arith, size, inside) in
        let (t, built, root) =
          batches-merkle_root d n chunked fits keccak256 (at * 256) e m q power within pos in
        let swap : 256 * m ≡ m * 256 = omega arith in
        let chunks : 256 * 2 ^ j / 256 ≡ 2 ^ j = omega arith in
        let node : SubmissionNode = record { root = root_hash t; height = j } in
        let tree =
          ap
            (λ (z : ℕ). build_tree keccak256 (
              in_order
                (parallel_do keccak256 (record { data_of = d; offset = at * 256; batch = 256 * m }))
                parallel_collect z empty_builder))
            tasks
          ∙ ap
              (λ (z : ℕ). build_tree keccak256 (
                in_order
                  (parallel_do keccak256 (record { data_of = d; offset = at * 256; batch = z }))
                  parallel_collect q empty_builder))
              swap
          ∙ built in
        (
          node,
          ap (node_of (log2 64 (256 * 2 ^ j / 256))) tree
              ∙ ap (λ (z : ℕ). node_of z (some (some t))) (ap (log2 64) chunks ∙ log2-pow 64 j low),
          (
            refl,
            root
                ∙ ap
                    (λ (z : ℕ).
                      merkle_root keccak256 (
                        chunk_hashes keccak256 z
                          (part d n chunked fits (at * 256) (q * (m * 256)))))
                    parts
                ∙ ap
                    (λ (z : ℕ).
                      merkle_root keccak256
                        (chunk_hashes keccak256 (2 ^ j) (part d n chunked fits (at * 256) z)))
                    size,
          ),
        )

    create_node_lem :
        (at j : ℕ)
        → at + 2 ^ j ≤ n
        → j < 64
        → (node : SubmissionNode) × (create_node keccak256 d (at * 256) (2 ^ j) ≡ some node)
          × IsNode at j node
    unfolding create_node
    create_node_lem at j inside low = elim (Bool-cases (ltb 1024 (2 ^ j))) [
      | inl large ↦
          let above : 10 ≤ j = over_segment j large in
          let power : 2 ^ (j - 10) * 1024 ≡ 2 ^ j =
            sym (pow-add (j - 10) 10) ∙ ap (λ (z : ℕ). 2 ^ z) (minus_plus j above) in
          let pos = pow_pos (j - 10) in
          let (node, made, is) =
            create_segment_node_lem at 10 1024 (2 ^ (j - 10)) j refl inside power pos low
              (omega (arith, power, pos)) in
          (node, rw large made, is)
      | inr small ↦
          let one : 1 * 2 ^ j ≡ 2 ^ j = omega arith in
          let (node, made, is) =
            create_segment_node_lem at j (2 ^ j) 1 j refl inside one (omega arith) low
              (one_batch (256 * 2 ^ j) (omega (arith, pow_pos j))) in
          (node, rw small made, is)
    ]

    create_nodes_lem :
        (at b : ℕ) (xs : List ℕ)
        → b ≤ 64
        → IsSplit b xs
        → at + sum xs ≡ n
        → (nodes : List SubmissionNode) × (create_nodes keccak256 d (at * 256) xs ≡ some nodes)
          × Covers n at b nodes
          × (sectors nodes ≡ sum xs)
    unfolding create_nodes
    create_nodes_lem at b [] hb split total = ([], refl, omega (arith, total), refl)
    create_nodes_lem at b (x ∷ xs) hb (j, low, power, rest) total =
        let (node, made, (tall, root)) =
          create_node_lem at j (omega (arith, power, total)) (omega arith) in
        let next : at * 256 + x * 256 ≡ (at + 2 ^ j) * 256 = omega (arith, power) in
        let (nodes, more, covers, paid) =
          create_nodes_lem (at + 2 ^ j) j xs (omega arith) rest (omega (arith, power, total)) in
        (
          node ∷ nodes,
          ap
                (λ (z : ℕ).
                  with_node (create_node keccak256 d (at * 256) z)
                    (create_nodes keccak256 d (at * 256 + x * 256) xs))
                power
              ∙ ap
                  (λ (z : ℕ).
                    with_node (create_node keccak256 d (at * 256) (2 ^ j))
                      (create_nodes keccak256 d z xs))
                  next
              ∙ ap (λ z. with_node z (create_nodes keccak256 d ((at + 2 ^ j) * 256) xs)) made
              ∙ ap (with_node (some node)) more,
          subst (λ (h : ℕ). (h < b) × IsNode at h node × Covers n (at + 2 ^ h) h nodes) (sym tall)
              (low, (tall, root), covers),
          omega (arith, power, paid, ap (λ (z : ℕ). 2 ^ z) tall),
        )

  submission_of_nodes :
      (tags xs : List ℕ) (nodes : List SubmissionNode)
      → split_nodes (num_chunks d) ≡ some xs
      → create_nodes keccak256 d 0 xs ≡ some nodes
      → create_submission keccak256 d tags
        ≡ some (record { size = length d.underlying; tags = tags; nodes = nodes })
  unfolding create_submission
  submission_of_nodes tags xs nodes split made = rw (split, made, create_submission) refl

  -- What the flow pads the data to, in chunks.
  padded-chunked :
      0 < length d.underlying
      → length d.underlying < 2 ^ 62
      → d.padded_size ≡ iterator_padded_size (length d.underlying) true
      → (d.padded_size ≡ 256 * (compute_padded_size (num_chunks d)).0)
        × (length d.underlying ≤ d.padded_size)
        × (0 < num_chunks d)
        × (num_chunks d ≤ 2 ^ 62)
  unfolding iterator_padded_size num_chunks num_splits
  padded-chunked pos small flow =
      let c = num_chunks d in
      let p = compute_padded_size-IsPadded c (omega arith) (omega arith) in
      let chunked : d.padded_size ≡ 256 * (compute_padded_size c).0 =
        omega (arith, flow, p.fits, p.tight, small) in
      (chunked, omega (arith, chunked, p.covers), omega arith, omega arith)

  -- For 1 to less than 2^62 bytes with the padded size that the flow gives them: CreateSubmission answers with
  -- the size, the tags, and nodes of strictly falling heights that cover the padded chunks one behind
  -- the other, each with the reference root over its 2^height chunks; and the fee of the submission
  -- is the price of a sector for each padded chunk.
  pub create_submission-Covers :
      (tags : List ℕ) (price : ℕ)
      → 0 < length d.underlying
      → length d.underlying < 2 ^ 62
      → d.padded_size ≡ iterator_padded_size (length d.underlying) true
      → (s : Submission) × (create_submission keccak256 d tags ≡ some s)
        × (s.size ≡ length d.underlying)
        × (s.tags ≡ tags)
        × Covers (compute_padded_size (num_chunks d)).0 0 64 s.nodes
        × (fee s price ≡ (compute_padded_size (num_chunks d)).0 * price)
  unfolding fee
  create_submission-Covers tags price pos small flow =
      let (chunked, fits, some_chunk, few) = padded-chunked pos small flow in
      let n = (compute_padded_size (num_chunks d)).0 in
      let (xs, split, powers, total) = split_nodes-IsSplit (num_chunks d) some_chunk few in
      let all : 0 + sum xs ≡ n = omega (arith, total) in
      let (nodes, made, covers, paid) =
        create_nodes_lem n chunked fits 0 64 xs (omega arith)
          (IsSplit-mono 63 64 xs (omega arith) powers) all in
      (
        record { size = length d.underlying; tags = tags; nodes = nodes },
        submission_of_nodes tags xs nodes split made,
        refl,
        refl,
        covers,
        ap (λ (z : ℕ). z * price) (paid ∙ total),
      )
