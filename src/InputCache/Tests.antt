-- ===== src/InputCache/Tests.antt =====
-- Runs of sensors_input_cache.c on a directory with two devices.
use akm_dash.Common.{ℕ, zero, suc, ◌≡◌, refl, pos, true, none, some, [], ◌∷◌, codes, arith}
use akm_dash.InputCache.{Cache, Entry, lookup, answers, same_start, asked}
use akm_dash.Xyz.Attr.{same_text}
use akm_dash.InputCache.Node.{Nodes, node_add}
use akm_dash.InputCache.Ring.{IsRing, node_add-IsRing}
use akm_dash.InputCache.Find.{lookup_refines}

abbrev ring : Nodes
ring = record { n = λ x. 0; p = λ x. 0 }

abbrev two_nodes : Nodes
two_nodes = record {
  n = λ x. elim x [ zero ↦ 7 | suc k ↦ 0 ];
  p = λ x. elim x [ zero ↦ 7 | suc k ↦ 0 ];
}

abbrev entries : ℕ → Entry
entries x = record { nr = pos x; dev_name = codes "gyro"; event_path = codes "/dev/input/event7" }

abbrev one_device : Cache
one_device = record { nodes = two_nodes; entry = entries; list_initialized = true; mallocs = 1 }

two_nodes-IsRing : IsRing two_nodes 0 (7 ∷ [])
two_nodes-IsRing = ((refl, refl, (refl, refl)), ((λ e. absurd (omega arith)), tt), (tt, tt))

node_add-IsRing_example : IsRing (node_add 0 9 two_nodes) 0 (9 ∷ 7 ∷ [])
node_add-IsRing_example =
    node_add-IsRing 0 9 (7 ∷ []) two_nodes two_nodes-IsRing (λ e. absurd (omega arith))
      ((λ e. absurd (omega arith)), tt)

lookup_refines_example : lookup 100 (some (codes "gyro")) none one_device ≡ some 7
unfolding answers asked same_start same_text
lookup_refines_example =
    lookup_refines 100 (some (codes "gyro")) none one_device (7 ∷ []) two_nodes-IsRing (omega arith)
