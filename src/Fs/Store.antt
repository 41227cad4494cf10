-- ===== src/Fs/Store.antt =====
-- Reading and writing nodes.
use lxtos.Prelude.{
  ◌≡◌, ◌≢◌, some, length, set, get_elem?, get_elem?-lt, get_elem?-set_self, get_elem?-set_ne,
  lt→ltb,
}
use lxtos.Fs.{Ptr, Node, State, load, store}

-- `n` is the node at `p`.
abbrev pub NodeAt : State → Ptr → Node → Type 0
NodeAt s p n = get_elem? s.nodes p ≡ some n

abbrev pub with_node : State → Ptr → Node → State
with_node s p n = record s { nodes = set s.nodes p n }

pub load_lem : (s : State) (p : Ptr) {n : Node} → NodeAt s p n → load p s ≡ some (n, s)
unfolding load
load_lem s p e = rw (e, load)

pub store_lem :
    (s : State) (p : Ptr) {n : Node} (m : Node)
    → NodeAt s p n
    → store p m s ≡ some (tt, with_node s p m)
unfolding store
store_lem s p m e = rw (lt→ltb p (length s.nodes) (get_elem?-lt s.nodes p e))

pub NodeAt-with_node :
    (s : State) (p : Ptr) {n : Node} (m : Node) → NodeAt s p n → NodeAt (with_node s p m) p m
NodeAt-with_node s p m e = get_elem?-set_self s.nodes p m (get_elem?-lt s.nodes p e)

pub with_node_ne :
    (s : State) (p q : Ptr) (m : Node)
    → p ≢ q
    → get_elem? (with_node s p m).nodes q ≡ get_elem? s.nodes q
with_node_ne s p q m h = get_elem?-set_ne s.nodes p q m h
