-- ===== src/Clustering/Louvain/Communities.antt =====
-- The map `community_of` of `louvain_positive` and the grouping of its nodes by community.
use episcience.Base.{Option, none, some, List, [], ◌∷◌, ◌++◌, map, Uuid, ◌==◌, if◌then◌else◌}
use episcience.Base.Runs.{Run, returns, ◌>>=◌, or_panic}

abbrev pub CommunityOf : Type 0
CommunityOf = List (Uuid × Uuid)

-- A community's id with its members.
abbrev pub Members : Type 0
Members = List (Uuid × List Uuid)

unfoldable pub community : Uuid → CommunityOf → Option Uuid
community n [] = none
community n ((k, c) ∷ of) = if k == n then some c else community n of

-- `community_of[&n]`
abbrev pub index : CommunityOf → Uuid → Run Uuid
index of n = or_panic (community n of)

-- `community_of.insert(n, c)`
unfoldable pub assign : Uuid → Uuid → CommunityOf → CommunityOf
assign n c [] = (n, c) ∷ []
assign n c ((k, d) ∷ of) = if k == n then (n, c) ∷ of else (k, d) ∷ assign n c of

-- Each claim in a community of its own, named by the claim.
unfoldable pub singletons : List Uuid → CommunityOf
unfolding assign
singletons [] = []
singletons (id ∷ ids) = assign id id (singletons ids)

-- `entry(c).or_default().push(n)`
unfoldable pub push_member : Uuid → Uuid → Members → Members
push_member c n [] = (c, n ∷ []) ∷ []
push_member c n ((d, ns) ∷ groups) =
    if d == c then (d, ns ++ n ∷ []) ∷ groups else (d, ns) ∷ push_member c n groups

-- The groups of all pairs of `community_of`, added to those there are.
unfoldable pub group : CommunityOf → Members → Members
unfolding push_member
group [] groups = groups
group ((n, c) ∷ of) groups = group of (push_member c n groups)

-- `comm_members`: the groups of the given nodes.
unfoldable pub pairs_of : CommunityOf → List Uuid → Run CommunityOf
pairs_of of [] = returns []
pairs_of of (n ∷ ns) = do c ← index of n; rest ← pairs_of of ns; returns ((n, c) ∷ rest)

unfoldable pub group_all : CommunityOf → List Uuid → Run Members
unfolding pairs_of group
group_all of ns = do pairs ← pairs_of of ns; returns (group pairs [])

unfoldable pub members_of : Uuid → Members → List Uuid
members_of c [] = []
members_of c ((d, ns) ∷ groups) = if d == c then ns else members_of c groups

abbrev pub members : Members → List (List Uuid)
members = map (λ g. g.1)

abbrev pub nodes_of : CommunityOf → List Uuid
nodes_of = map (λ p. p.0)
