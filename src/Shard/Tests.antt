-- ===== src/Shard/Tests.antt =====
-- common/shard: selections at concrete inputs, of nodes that stand in order already.
use g_storage_client.Prelude.{
  ℕ, ◌↔◌, ◌*◌, ◌^◌, ◌≤◌, ◌≡◌, refl, Bool, true, some, List, [], ◌∷◌, arith, All,
}
use g_storage_client.Shard.{
  ShardedNode, tip, insert, occupy_loop, visit, occupy_node, pushdown, select_loop, first_selection,
  select,
}
use g_storage_client.Shard.Insert.{InsertedBy, insert-InsertedBy}
use g_storage_client.Shard.{is_valid}
use g_storage_client.Shard.Valid.{is_valid-IsShard}
use g_storage_client.Shard.Select.{IsShard, holders, select_answers, select-holders}

abbrev make_shard_node : ℕ → ℕ → ShardedNode
make_shard_node num_shard shard_id = record {
  url = [];
  config = record { shard_id = shard_id; num_shard = num_shard };
  latency = 0;
  since = 0;
}

abbrev nodes : List ShardedNode
nodes = make_shard_node 2 0 ∷ make_shard_node 4 1 ∷ make_shard_node 4 3 ∷ []

abbrev sorted : List ShardedNode → List ShardedNode
sorted xs = xs

nodes-IsShard : All (λ (node : ShardedNode). IsShard (node.config)) nodes
nodes-IsShard =
    let two : IsShard (record { shard_id = 0; num_shard = 2 }) = record {
      exponent = 1;
      small = omega arith;
      power = refl;
      low = omega arith;
    } in
    let four : IsShard (record { shard_id = 1; num_shard = 4 }) = record {
      exponent = 2;
      small = omega arith;
      power = refl;
      low = omega arith;
    } in
    let last : IsShard (record { shard_id = 3; num_shard = 4 }) = record {
      exponent = 2;
      small = omega arith;
      power = refl;
      low = omega arith;
    } in
    (two, (four, (last, tt)))

nodes_selected : select sorted 100 nodes 1 ≡ some (nodes, true)
unfolding select select_loop first_selection insert pushdown occupy_node occupy_loop visit
nodes_selected = refl

insert-InsertedBy_example : InsertedBy 65 (1 * 2 ^ 2) 2 3 1 (tip 1 0 0)
insert-InsertedBy_example =
    insert-InsertedBy 65 2 1 3 1 (tip 1 0 0) refl tt refl (omega arith) (omega arith) (omega arith)
      (omega arith)

select_answers_example : (r : List ShardedNode × Bool) × (select sorted 100 nodes 1 ≡ some r)
select_answers_example = select_answers sorted 100 nodes 1 (omega arith) (omega arith) nodes-IsShard

select-holders_example : 1 ≤ holders nodes 7
select-holders_example =
    select-holders sorted 100 nodes 1 nodes 7 (omega arith) (omega arith) nodes-IsShard
      nodes_selected (omega arith)

is_valid-IsShard_example :
    (is_valid (record { shard_id = 3; num_shard = 8 }) ≡ true)
    ↔ IsShard (record { shard_id = 3; num_shard = 8 })
is_valid-IsShard_example = is_valid-IsShard (record { shard_id = 3; num_shard = 8 }) (omega arith)
