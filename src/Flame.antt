-- ===== src/Flame.antt =====
-- The flame graph tree of golang-profiling-common/src/lib.rs.
pub mod Totals
pub mod Lines
use golang_profiling.Base.{ℕ, List, [], ◌∷◌, ◌++◌, if◌then◌else◌, is_empty}
use golang_profiling.Base.Bytes.{Bytes}
use golang_profiling.Base.Words.{add64}
use golang_profiling.Base.Text.{bytes_eq, decimal, codes}

-- `children` is a `HashMap<String, FlameNode>`: its entries in the order of iteration, which the
-- library leaves open.
mutual
  pub data FlameNode : Type 0 where
    node : Bytes → ℕ → Children → FlameNode

  pub data Children : Type 0 where
    nil : Children
    child : Bytes → FlameNode → Children → Children

abbrev pub value : FlameNode → ℕ
value (node name v children) = v

unfoldable pub new : Bytes → FlameNode
new name = node name 0 nil

-- `entry(key).or_insert_with(|| FlameNode::new(key))`, and an update of what stands there.
unfoldable pub update_entry : Bytes → (FlameNode → FlameNode) → Children → Children
update_entry key f nil = child key (f (new key)) nil
update_entry key f (child k n rest) =
    if bytes_eq k key then child k (f n) rest else child k n (update_entry key f rest)

unfoldable pub add_sample : List Bytes → ℕ → FlameNode → FlameNode
add_sample [] v (node name value children) = node name (add64 value v) children
add_sample (first ∷ rest) v (node name value children) =
    node name (add64 value v) (update_entry first (add_sample rest v) children)

-- `prefix` and the name, joined by `;` unless the prefix is empty.
unfoldable pub join_name : Bytes → Bytes → Bytes
join_name prefix name = if is_empty prefix then name else prefix ++ (codes ";" ++ name)

-- `"{} {}"`
unfoldable pub folded_line : Bytes → ℕ → Bytes
folded_line name value = name ++ (codes " " ++ decimal value)

unfoldable mutual
  pub to_folded : FlameNode → Bytes → List Bytes
  to_folded (node name value children) prefix = fold_children children (join_name prefix name) value

  -- A leaf gives one line, and a node with children their lines.
  pub fold_children : Children → Bytes → ℕ → List Bytes
  fold_children nil current value = folded_line current value ∷ []
  fold_children (child k n rest) current value = to_folded n current ++ fold_rest rest current

  pub fold_rest : Children → Bytes → List Bytes
  fold_rest nil current = []
  fold_rest (child k n rest) current = to_folded n current ++ fold_rest rest current
