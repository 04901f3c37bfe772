-- ===== src/Routing/Walks.antt =====
-- engine/routing.py: what a route is, apart from how it is searched.
use openleo.Prelude.{ℕ, ◌+◌, ◌≡◌, true, Option, none, some, List, [], ◌∷◌, ◌++◌, get_or, In}
use openleo.Routing.{Graph, Edge, narrower, is_usable}

-- Simple paths from the source over edges of the graph that have the capacity: the nodes, the last
-- node, the sum of the delays, the number of hops and the smallest capacity.
pub data Walk (graph : Graph) (minimum source : ℕ) : List ℕ → ℕ → ℕ → ℕ → Option ℕ → Type 0 where
  start :
      {p : List ℕ} {v d h : ℕ} {b : Option ℕ}
      → p ≡ source ∷ []
      → v ≡ source
      → d ≡ 0
      → h ≡ 0
      → b ≡ none
      → Walk graph minimum source p v d h b
  extend :
      {p q : List ℕ} {v w d c h k : ℕ} {b a : Option ℕ}
      → Walk graph minimum source p v d h b
      → (e : Edge) → In e (get_or graph v [])
      → is_usable minimum p e ≡ true
      → q ≡ p ++ e.neighbor ∷ []
      → w ≡ e.neighbor
      → c ≡ d + e.delay
      → k ≡ h + 1
      → a ≡ some (narrower b e.capacity)
      → Walk graph minimum source q w c k a
