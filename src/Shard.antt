-- ===== src/Shard.antt =====
-- common/shard/types.go: shard configurations, and the segment tree that Select chooses nodes by.
-- A tree node with nil childs is a tip, one with two childs a fork.
pub mod Cover
pub mod Insert
pub mod Occupy
pub mod Select
pub mod Valid
mod Tests
use Prim.Native.Nat.{bit_and}
use g_storage_client.Prelude.{
  ℕ, zero, suc, ◌+◌, ◌-◌, ◌*◌, ◌/◌, ◌%◌, ◌^◌, ◌≡◌, refl, Bool, true, false, ◌||◌, ◌&&◌, Option,
  none, some, List, [], ◌∷◌, ◌++◌, ltb, leb, ◌==◌, if◌then◌else◌, min,
}

pub record ShardConfig : Type 0 where
  pub shard_id : ℕ
  pub num_shard : ℕ

unfoldable pub has_segment : ShardConfig → ℕ → Bool
has_segment config segment_index =
    ltb config.num_shard 2 || (segment_index % config.num_shard == config.shard_id)

unfoldable pub is_valid : ShardConfig → Bool
is_valid config =
    ltb 0 config.num_shard
    && ((bit_and config.num_shard (config.num_shard - 1) == 0)
        && ltb config.shard_id config.num_shard)

-- The number of shards, the lazy tags and the replica of a node.
pub data ShardTree : Type 0 where
  tip : ℕ → ℕ → ℕ → ShardTree
  fork : ℕ → ℕ → ℕ → ShardTree → ShardTree → ShardTree

abbrev pub shards : ShardTree → ℕ
shards (tip n l r) = n
shards (fork n l r a b) = n

abbrev pub replica : ShardTree → ℕ
replica (tip n l r) = r
replica (fork n l r a b) = r

-- A child under the lazy tags of its parent.
abbrev pub add_tags : ℕ → ShardTree → ShardTree
add_tags k (tip n l r) = tip n (l + k) (r + k)
add_tags k (fork n l r a b) = fork n (l + k) (r + k) a b

-- The childs after pushdown, which makes them when they are nil.
unfoldable pub pushdown : ShardTree → ShardTree × ShardTree
pushdown (tip n l r) = let child = add_tags l (tip (n * 2 % 2 ^ 64) 0 0) in (child, child)
pushdown (fork n l r a b) = (add_tags l a, add_tags l b)

-- One more replica on the whole of a node.
abbrev pub cover_node : ShardTree → ShardTree
cover_node = add_tags 1

-- A node after pushdown, with the child that the insertion changed.
abbrev pub rejoin :
    Bool → ℕ → ShardTree × ShardTree → Option (Bool × ShardTree) → Option (Bool × ShardTree)
rejoin on_left n childs none = none
rejoin true n childs (some (inserted, c)) =
    some (inserted, fork n 0 (min (replica c) (replica childs.1)) c childs.1)
rejoin false n childs (some (inserted, c)) =
    some (inserted, fork n 0 (min (replica childs.0) (replica c)) childs.0 c)

abbrev pub child : Bool → ShardTree × ShardTree → ShardTree
child on_left childs = if on_left then childs.0 else childs.1

-- insert; `none` when the fuel, which bounds the depth, runs out.
unfoldable pub insert : ℕ → ℕ → ℕ → ℕ → ShardTree → Option (Bool × ShardTree)
insert zero num_shard shard_id expected t = none
insert (suc f) num_shard shard_id expected t =
    let on_left = shard_id % 2 == 0 in
    let childs = pushdown t in
    let below = insert f num_shard (shard_id / 2) expected (child on_left childs) in
    if leb expected (replica t)
    then some (false, t)
    else if shards t == num_shard
    then some (true, cover_node t)
    else rejoin on_left (shards t) childs below

pub record ShardedNode : Type 0 where
  pub url : List ℕ
  pub config : ShardConfig
  pub latency : ℕ
  pub since : ℕ

-- The map of the loop over a node's segments, where a missing key is 0, and its variables.
pub record Occupancy : Type 0 where
  pub occupied : ℕ → ℕ
  pub hit : ℕ
  pub chosen : Bool

abbrev pub occupy : (ℕ → ℕ) → ℕ → ℕ → ℕ
occupy occupied id s = if id == s then suc (occupied id) else occupied s

unfoldable pub visit : ℕ → ℕ → Occupancy → Occupancy
visit expected id o =
    if ltb (o.occupied id) expected
    then record { occupied = occupy o.occupied id; hit = suc o.hit; chosen = true }
    else o

-- The loop over the segments of a shard; `none` when the fuel runs out.
unfoldable pub occupy_loop : ℕ → ℕ → ℕ → ℕ → ℕ → Occupancy → Option Occupancy
occupy_loop zero seg_num num_shard expected id o = none
occupy_loop (suc f) seg_num num_shard expected id o = elim (ltb id seg_num) [
  | false ↦ some o
  | true ↦
      occupy_loop f seg_num num_shard expected ((id + num_shard) % 2 ^ 64) (visit expected id o)
]

-- The variables of the loop over the nodes.
pub record Selection : Type 0 where
  pub root : ShardTree
  pub selected : List ShardedNode
  pub occupied : ℕ → ℕ
  pub occupied_nodes : List ShardedNode
  pub hit : ℕ

abbrev pub add_if : Bool → ShardedNode → List ShardedNode → List ShardedNode
add_if true node nodes = nodes ++ node ∷ []
add_if false node nodes = nodes

abbrev pub take_inserted : ShardedNode → Bool × ShardTree → Selection → Selection
take_inserted node r sel = record sel { root = r.1; selected = add_if r.0 node sel.selected }

abbrev pub take_occupied : ShardedNode → Occupancy → Selection → Selection
take_occupied node o sel = record sel {
  occupied = o.occupied;
  occupied_nodes = add_if o.chosen node sel.occupied_nodes;
  hit = o.hit;
}

unfoldable pub occupy_node : ℕ → ℕ → ShardedNode → Selection → Option Selection
occupy_node seg_num expected node sel =
    elim (occupy_loop (suc seg_num) seg_num (node.config).num_shard expected (node.config).shard_id
      (record { occupied = sel.occupied; hit = sel.hit; chosen = false })) [
        | none ↦ none
        | some o ↦ some (take_occupied node o sel)
      ]

-- The loop over the nodes; `none` stands for a recursion of insert that does not end.
unfoldable pub select_loop : ℕ → ℕ → List ShardedNode → Selection → Option (List ShardedNode × Bool)
select_loop seg_num expected [] sel = some ([], false)
select_loop seg_num expected (node ∷ nodes) sel =
    elim (insert 65 (node.config).num_shard (node.config).shard_id expected sel.root) [
      | none ↦ none
      | some r ↦
          let sel' = take_inserted node r sel in
          elim (leb expected (replica r.1)) [
            | true ↦ some (sel'.selected, true)
            | false ↦ elim (ltb 0 seg_num) [
              | false ↦ select_loop seg_num expected nodes sel'
              | true ↦ elim (occupy_node seg_num expected node sel') [
                | none ↦ none
                | some sel'' ↦ elim (sel''.hit == seg_num * expected % 2 ^ 64) [
                  | true ↦ some (sel''.occupied_nodes, true)
                  | false ↦ select_loop seg_num expected nodes sel''
                ]
              ]
            ]
          ]
    ]

unfoldable pub first_selection : Selection
first_selection = record {
  root = tip 1 0 0;
  selected = [];
  occupied = λ _. 0;
  occupied_nodes = [];
  hit = 0;
}

-- Select; `arrange` is the shuffle, or sort.Slice.
unfoldable pub select :
    (List ShardedNode → List ShardedNode)
    → ℕ
    → List ShardedNode
    → ℕ
    → Option (List ShardedNode × Bool)
select arrange seg_num nodes expected =
    if expected == 0
    then some ([], true)
    else select_loop seg_num expected (arrange nodes) first_selection

-- CheckReplica, on nodes that have only a configuration.
abbrev pub bare_nodes : List ShardConfig → List ShardedNode
bare_nodes [] = []
bare_nodes (config ∷ configs) =
    record { url = []; config = config; latency = 0; since = 0 } ∷ bare_nodes configs

unfoldable pub check_replica :
    (List ShardedNode → List ShardedNode) → ℕ → List ShardConfig → ℕ → Option Bool
check_replica sorted seg_num configs expected =
    elim (select sorted seg_num (bare_nodes configs) expected) [ none ↦ none | some r ↦ some r.1 ]
