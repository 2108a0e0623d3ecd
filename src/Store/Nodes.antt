-- ===== src/Store/Nodes.antt =====
-- internal/store/store.go: the devices' table. Keys, names and texts are their bytes, and addresses
-- and endpoints are stored without loss.
use over_mesh.Common.{
  ℕ, ◌+◌, Bool, not, ◌&&◌, List, [], ◌∷◌, ◌++◌, Option, none, some, ltb, nat_beq, bytes_beq,
  if◌then◌else◌, any, find, select, count, update, has_key,
}
use over_mesh.Net.{Addr}

pub record Node : Type 0 where
  pub id : ℕ
  pub network_id : ℕ
  pub hostname : List ℕ
  pub machine_key : List ℕ
  pub node_key : List ℕ
  pub ipv4 : Addr
  pub ipv6 : Addr
  pub os : List ℕ
  pub endpoints : List (List ℕ)
  pub created_at : ℕ
  pub last_seen : ℕ
  pub owner_user_id : ℕ

pub record Nodes : Type 0 where
  pub rows : List Node
  pub next_id : ℕ

abbrev pub row_id : Node → ℕ
row_id n = n.id

-- The UNIQUE constraint on the machine keys fails the INSERT: `none`.
unfoldable pub create_node : ℕ → Node → Nodes → Option Node × Nodes
create_node now n t =
    let row = record n { id = t.next_id; created_at = now; last_seen = 0 } in
    if any (λ r. bytes_beq r.machine_key n.machine_key) t.rows
    then (none, t)
    else (some row, record { rows = t.rows ++ row ∷ []; next_id = t.next_id + 1 })

-- `none` for `ErrNotFound`.
abbrev pub node_by_machine_key : List ℕ → Nodes → Option Node
node_by_machine_key mkey t = find (λ n. bytes_beq n.machine_key mkey) t.rows

abbrev pub node_by_id : ℕ → Nodes → Option Node
node_by_id id t = find (has_key row_id id) t.rows

abbrev pub nodes_in_network : ℕ → Nodes → List Node
nodes_in_network network t = select (λ n. nat_beq n.network_id network) t.rows

abbrev pub update_node : ℕ → (Node → Node) → Nodes → Nodes
update_node id f t = record t { rows = update (has_key row_id id) f t.rows }

-- Whether a row was deleted, and the table.
unfoldable pub delete_node : ℕ → Nodes → Bool × Nodes
delete_node id t = (
  not (nat_beq (count (has_key row_id id) t.rows) 0),
  record t { rows = select (λ n. not (has_key row_id id n)) t.rows },
)

abbrev pub update_node_endpoints : ℕ → List (List ℕ) → Nodes → Nodes
update_node_endpoints id eps t = update_node id (λ n. record n { endpoints = eps }) t

abbrev pub update_node_ipv6 : ℕ → Addr → Nodes → Nodes
update_node_ipv6 id addr t = update_node id (λ n. record n { ipv6 = addr }) t

abbrev pub update_node_on_register : ℕ → List ℕ → List ℕ → List ℕ → Nodes → Nodes
update_node_on_register id nkey name os_name t =
    update_node id (λ n. record n { node_key = nkey; hostname = name; os = os_name }) t

abbrev pub touch_node : ℕ → ℕ → Nodes → Nodes
touch_node now id t = update_node id (λ n. record n { last_seen = now }) t

abbrev pub hostname_taken : ℕ → List ℕ → Nodes → Bool
hostname_taken network name t =
    ltb 0 (count (λ n. nat_beq n.network_id network && bytes_beq n.hostname name) t.rows)
