-- ===== src/InputCache/Node.antt =====
-- sensors/sensor_util_list.h: the circular, doubly linked list, in memory.
use akm_dash.Common.{ℕ, ◌==◌, if◌then◌else◌}

-- The two pointers of every `struct list_node`, by its address.
pub record Nodes : Type 0 where
  pub n : ℕ → ℕ
  pub p : ℕ → ℕ

-- A store through a pointer.
abbrev pub store : (ℕ → ℕ) → ℕ → ℕ → ℕ → ℕ
store f a v x = if x == a then v else f x

unfoldable pub set_n : ℕ → ℕ → Nodes → Nodes
set_n a v h = record h { n = store h.n a v }

unfoldable pub set_p : ℕ → ℕ → Nodes → Nodes
set_p a v h = record h { p = store h.p a v }

unfoldable pub node_init : ℕ → Nodes → Nodes
unfolding set_n set_p
node_init node h = set_n node node (set_p node node h)

-- The four assignments, in order.
unfoldable pub node_add : ℕ → ℕ → Nodes → Nodes
unfolding set_n set_p
node_add head node h =
    let h₁ = set_n node (h.n head) h in
    let h₂ = set_p node head h₁ in let h₃ = set_n head node h₂ in set_p (h₃.n node) node h₃

unfoldable pub node_del : ℕ → Nodes → Nodes
unfolding set_n set_p
node_del node h = let h₁ = set_n (h.p node) (h.n node) h in set_p (h₁.n node) (h₁.p node) h₁

unfoldable pub node_del_init : ℕ → Nodes → Nodes
unfolding node_del node_init
node_del_init node h = node_init node (node_del node h)
