-- ===== src/Traversal.antt =====
-- crates/episcience-core/src/synthesis/traversal.rs: the bounded breadth-first search of stage 2.
-- The edge provider and the relevance of a claim are the caller's: functions that answer the same
-- question in the same way during one traversal. The `HashSet` of visited claims is a list without
-- repeats, in the order of the visits; Rust returns its elements in an unspecified order.
pub mod Total
pub mod Reach
use episcience.Base.{
  ℕ, zero, suc, ◌+◌, Bool, true, false, Option, none, some, List, [], ◌∷◌, ◌++◌, map, Uuid, leb,
  if◌then◌else◌, length, contains, distinct,
}
use episcience.Base.Floats.{Float}
use episcience.Base.Runs.{Run, returns, panics, unfinished, ◌>>=◌}
use Prim.Native.String.{String}

pub data EdgeType : Type 0 where
  supports contradicts supersedes methodology corroborates : EdgeType

unfoldable pub as_str : EdgeType → String
as_str supports = "SUPPORTS"
as_str contradicts = "CONTRADICTS"
as_str supersedes = "supersedes"
as_str methodology = "METHODOLOGY"
as_str corroborates = "CORROBORATES"

pub record TraversalConfig (F : Type 0) : Type 0 where
  pub max_hops : ℕ
  pub edge_types : List EdgeType
  pub follow_via_paper : Bool
  pub relevance_prune : F
  pub max_subgraph_size : ℕ

-- `TraversalConfig::default()`
unfoldable pub default_config : {F : Type 0} ⦃fl : Float F⦄ → TraversalConfig F
default_config ⦃fl⦄ = record {
  max_hops = 2;
  edge_types = supports ∷ contradicts ∷ supersedes ∷ methodology ∷ corroborates ∷ [];
  follow_via_paper = true;
  relevance_prune = fl.literal 3 1;
  max_subgraph_size = 500;
}

-- What `traverse` fills in of a `SubgraphSnapshot`; the time of capture is the clock's.
pub record SubgraphSnapshot (F : Type 0) : Type 0 where
  pub claim_ids : List Uuid
  pub edge_ids : List Uuid
  pub traversal_config : TraversalConfig F

-- The visited claims, and the queue of claims with their distance.
pub record Search : Type 0 where
  pub visited : List Uuid
  pub frontier : List (Uuid × ℕ)

abbrev pub visit : ℕ → Uuid → Search → Search
visit hop n s = record { visited = s.visited ++ n ∷ []; frontier = s.frontier ++ (n, hop + 1) ∷ [] }

abbrev pub start : List Uuid → Search
start seeds = record { visited = distinct seeds; frontier = map (λ id. (id, 0)) seeds }

module _ {F : Type 0} ⦃fl : Float F⦄ (neighbors : Uuid → List EdgeType → List (Uuid × EdgeType))
    (relevance : Uuid → F) (cfg : TraversalConfig F) where
  -- `visited.len() >= cfg.max_subgraph_size`
  abbrev is_full : List Uuid → Bool
  is_full visited = leb cfg.max_subgraph_size (length visited)

  abbrev is_pruned : Uuid → Bool
  is_pruned n = fl.lt (relevance n) cfg.relevance_prune

  -- The `for` loop over the neighbours of a claim at distance `hop`.
  unfoldable pub expand : ℕ → List (Uuid × EdgeType) → Search → Search
  expand hop [] s = s
  expand hop ((n, t) ∷ ns) s = elim (contains s.visited n) [
    | true ↦ expand hop ns s
    | false ↦ elim (is_pruned n) [
      | true ↦ expand hop ns s
      | false ↦ elim (is_full (visit hop n s).visited) [
        | true ↦ visit hop n s
        | false ↦ expand hop ns (visit hop n s)
      ]
    ]
  ]

  -- The `while let` loop, each turn on one unit of fuel.
  unfoldable pub search_loop : ℕ → Search → Run (List Uuid)
  unfolding expand
  search_loop zero s = unfinished
  search_loop (suc fuel) s = elim s.frontier [
    | [] ↦ returns s.visited
    | (claim, hop) ∷ rest ↦ elim (is_full s.visited) [
      | true ↦ returns s.visited
      | false ↦ elim (leb cfg.max_hops hop) [
        | true ↦ search_loop fuel (record s { frontier = rest })
        | false ↦
            search_loop fuel
              (expand hop (neighbors claim cfg.edge_types) (record s { frontier = rest }))
      ]
    ]
  ]

  unfoldable pub traverse : ℕ → List Uuid → Run (SubgraphSnapshot F)
  unfolding search_loop
  traverse fuel seeds = do
    visited ← search_loop fuel (start seeds)
    returns (record { claim_ids = visited; edge_ids = []; traversal_config = cfg })
