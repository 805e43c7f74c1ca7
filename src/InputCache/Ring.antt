-- ===== src/InputCache/Ring.antt =====
-- The list of sensors/sensor_util_list.h as the sequence of its nodes.
use akm_dash.Common.{ℕ, ◌≡◌, ◌≢◌, refl, sym, ap, ◌∙◌, List, [], ◌∷◌, ==_refl, ==_ne, arith}
use akm_dash.InputCache.Node.{Nodes, store, node_add}

-- From `a` the pointers lead over these nodes to `last`, and back.
abbrev pub Linked : Nodes → ℕ → List ℕ → ℕ → Type 0
Linked h a [] last = (h.n a ≡ last) × (h.p last ≡ a)
Linked h a (x ∷ xs) last = (h.n a ≡ x) × (h.p x ≡ a) × Linked h x xs last

abbrev pub Absent : ℕ → List ℕ → Type 0
Absent a [] = Unit
Absent a (x ∷ xs) = (x ≢ a) × Absent a xs

abbrev pub AllDifferent : List ℕ → Type 0
AllDifferent [] = Unit
AllDifferent (x ∷ xs) = Absent x xs × AllDifferent xs

-- The ring from `head` consists of `head` and these nodes, each once.
abbrev pub IsRing : Nodes → ℕ → List ℕ → Type 0
IsRing h head xs = Linked h head xs head × Absent head xs × AllDifferent xs

-- Links that no assignment touches: the sources keep `n`, the targets keep `p`.
abbrev KeepsN : Nodes → Nodes → List ℕ → Type 0
KeepsN h h' [] = Unit
KeepsN h h' (x ∷ xs) = (h'.n x ≡ h.n x) × KeepsN h h' xs

abbrev KeepsP : Nodes → Nodes → List ℕ → Type 0
KeepsP h h' [] = Unit
KeepsP h h' (x ∷ xs) = (h'.p x ≡ h.p x) × KeepsP h h' xs

Linked-kept :
    (h h' : Nodes) (a : ℕ) (xs : List ℕ) (last : ℕ)
    → h'.n a ≡ h.n a
    → KeepsN h h' xs
    → KeepsP h h' xs
    → h'.p last ≡ h.p last
    → Linked h a xs last
    → Linked h' a xs last
Linked-kept h h' a [] last e kn kp l (f, g) = (rw e f, rw l g)
Linked-kept h h' a (x ∷ xs) last e (en, kn) (ep, kp) l (f, g, r) =
    (rw e f, rw ep g, Linked-kept h h' x xs last en kn kp l r)

store_other : (f : ℕ → ℕ) (a v x : ℕ) → x ≢ a → store f a v x ≡ f x
store_other f a v x ne = rw (==_ne x a ne) refl

store_same : (f : ℕ → ℕ) (a v : ℕ) → store f a v a ≡ v
store_same f a v = rw (==_refl a) refl

node_add-n :
    (head node x : ℕ) (h : Nodes) → x ≢ head → x ≢ node → (node_add head node h).n x ≡ h.n x
unfolding node_add
node_add-n head node x h a b = ground (arith, ==_ne x head a, ==_ne x node b)

node_add_head : (head node : ℕ) (h : Nodes) → (node_add head node h).n head ≡ node
unfolding node_add
node_add_head head node h = ground (arith, ==_refl head)

node_add_node : (head node : ℕ) (h : Nodes) → node ≢ head → (node_add head node h).n node ≡ h.n head
unfolding node_add
node_add_node head node h ne = ground (arith, ==_ne node head ne, ==_refl node)

node_add-p :
    (head node x : ℕ) (h : Nodes)
    → node ≢ head
    → x ≢ node
    → x ≢ h.n head
    → (node_add head node h).p x ≡ h.p x
unfolding node_add
node_add-p head node x h ne b c =
    ground (arith, ==_ne node head ne, ==_refl node, ==_ne x node b, ==_ne x (h.n head) c)

node_add_back :
    (head node : ℕ) (h : Nodes)
    → node ≢ head
    → ((node_add head node h).p (h.n head) ≡ node)
      × (h.n head ≢ node → (node_add head node h).p node ≡ head)
unfolding node_add
node_add_back head node h ne = (
  ground (arith, ==_ne node head ne, ==_refl node, ==_refl (h.n head)),
  (λ m. ground (arith, ==_ne node head ne, ==_refl node, ==_ne node (h.n head) (λ e. m (sym e)))),
)

keeps_n :
    (head node : ℕ) (h : Nodes) (xs : List ℕ)
    → Absent head xs
    → Absent node xs
    → KeepsN h (node_add head node h) xs
keeps_n head node h [] a b = tt
keeps_n head node h (x ∷ xs) (a, rest) (b, bs) =
    (node_add-n head node x h a b, keeps_n head node h xs rest bs)

keeps_p :
    (head node : ℕ) (h : Nodes) (xs : List ℕ)
    → node ≢ head
    → Absent node xs
    → Absent (h.n head) xs
    → KeepsP h (node_add head node h) xs
keeps_p head node h [] ne b c = tt
keeps_p head node h (x ∷ xs) ne (b, bs) (c, cs) =
    (node_add-p head node x h ne b c, keeps_p head node h xs ne bs cs)

-- `node_add` puts a node that is not in a ring right behind the head of the ring: the other nodes
-- keep their order, and the pointers lead around in both directions.
pub node_add-IsRing :
    (head node : ℕ) (xs : List ℕ) (h : Nodes)
    → IsRing h head xs
    → node ≢ head
    → Absent node xs
    → IsRing (node_add head node h) head (node ∷ xs)
node_add-IsRing head node [] h ((f, b), a, d) ne absent =
    let (back, forth) = node_add_back head node h ne in
    (
      (
        node_add_head head node h,
        forth (rw f (λ e. ne (sym e))),
        (node_add_node head node h ne ∙ f, ap (node_add head node h).p (sym f) ∙ back),
      ),
      (ne, tt),
      (tt, tt),
    )
node_add-IsRing head node (x ∷ xs) h ((f, b, l), (a, rest), (d, ds)) ne (o, os) =
    let (back, forth) = node_add_back head node h ne in
    (
      (
        node_add_head head node h,
        forth (rw f o),
        (
          node_add_node head node h ne ∙ f,
          ap (node_add head node h).p (sym f) ∙ back,
          Linked-kept h (node_add head node h) x xs head (node_add-n head node x h a o)
              (keeps_n head node h xs rest os) (keeps_p head node h xs ne os (rw f d))
              (node_add-p head node head h ne (λ e. ne (sym e)) (rw f (λ e. a (sym e)))) l,
        ),
      ),
      (ne, (a, rest)),
      ((o, os), (d, ds)),
    )
