-- ===== src/Clustering/Louvain/Grouping.antt =====
-- What `assign` and `group` do to the nodes: none is lost, added or put in two groups.
use episcience.Base.{
  ◌+◌, ◌≡◌, refl, Bool, true, false, ◌||◌, some, List, [], ◌∷◌, ◌++◌, map, arith, Uuid, leb, ◌==◌,
  if◌then◌else◌, count, contains, concat, count-append, All,
}
use episcience.Base.Sort.{sort, insert_by, count-sort}
use episcience.Base.Runs.{returns, or_panic}
use episcience.Clustering.Sorting.{is_empty, AllNonempty}
use episcience.Clustering.Louvain.Communities.{
  CommunityOf, Members, community, index, assign, singletons, push_member, group, pairs_of,
  group_all, members, nodes_of,
}

-- A node of the map has a community.
pub index-total :
    (n : Uuid) (of : CommunityOf)
    → contains (nodes_of of) n ≡ true
    → (c : Uuid) × (index of n ≡ returns c)
unfolding community
index-total n [] h = absurd (ground arith)
index-total n ((k, d) ∷ of) h = go (k == n) refl (index-total n of)
  where
    go :
        (b : Bool)
        → (k == n) ≡ b
        → (contains (nodes_of of) n ≡ true → (c : Uuid) × (index of n ≡ returns c))
        → (c : Uuid) × (or_panic (if b then some d else community n of) ≡ returns c)
    go true e r = (d, refl)
    go false e r = r (ground arith)

pub nodes_of-assign :
    (n c : Uuid) (of : CommunityOf)
    → contains (nodes_of of) n ≡ true
    → nodes_of (assign n c of) ≡ nodes_of of
unfolding assign
nodes_of-assign n c [] h = absurd (ground arith)
nodes_of-assign n c ((k, d) ∷ of) h = ground (arith, nodes_of-assign n c of)

contains-assign :
    (a n c : Uuid) (of : CommunityOf)
    → contains (nodes_of (assign n c of)) a ≡ ((n == a) || contains (nodes_of of) a)
unfolding assign
contains-assign a n c [] = refl
contains-assign a n c ((k, d) ∷ of) = ground (arith, contains-assign a n c of)

count-assign :
    (a n c : Uuid) (of : CommunityOf)
    → count a (nodes_of (assign n c of))
      ≡ (if contains (nodes_of of) n then 0 else if n == a then 1 else 0) + count a (nodes_of of)
unfolding assign
count-assign a n c [] = ground arith
count-assign a n c ((k, d) ∷ of) = ground (arith, count-assign a n c of)

pub contains-singletons :
    (a : Uuid) (ids : List Uuid) → contains (nodes_of (singletons ids)) a ≡ contains ids a
unfolding singletons
contains-singletons a [] = refl
contains-singletons a (id ∷ ids) =
    ground (arith, contains-assign a id id (singletons ids), contains-singletons a ids)

pub count-singletons :
    (a : Uuid) (ids : List Uuid)
    → count a (nodes_of (singletons ids)) ≡ (if contains ids a then 1 else 0)
unfolding singletons
count-singletons a [] = refl
count-singletons a (id ∷ ids) = ground (
  arith,
  count-assign a id id (singletons ids),
  contains-singletons id ids,
  contains-singletons a ids,
  count-singletons a ids,
)

count-push_member :
    (a c n : Uuid) (gs : Members)
    → count a (concat (members (push_member c n gs)))
      ≡ (if n == a then 1 else 0) + count a (concat (members gs))
unfolding push_member
count-push_member a c n [] = ground arith
count-push_member a c n ((d, ns) ∷ gs) = ground (
  arith,
  count-append a ns (n ∷ []),
  count-append a ns (concat (members gs)),
  count-append a (ns ++ n ∷ []) (concat (members gs)),
  count-append a ns (concat (members (push_member c n gs))),
  count-push_member a c n gs,
)

pub count-group :
    (a : Uuid) (of : CommunityOf) (gs : Members)
    → count a (concat (members (group of gs)))
      ≡ count a (nodes_of of) + count a (concat (members gs))
unfolding group
count-group a [] gs = omega arith
count-group a ((n, c) ∷ of) gs =
    omega (arith, count-group a of (push_member c n gs), count-push_member a c n gs)

append-nonempty : (ns : List Uuid) (n : Uuid) → is_empty (ns ++ n ∷ []) ≡ false
append-nonempty [] n = refl
append-nonempty (x ∷ ns) n = refl

push_member-nonempty :
    (c n : Uuid) (gs : Members)
    → AllNonempty (members gs)
    → AllNonempty (members (push_member c n gs))
unfolding push_member
push_member-nonempty c n [] h = (refl, tt)
push_member-nonempty c n ((d, ns) ∷ gs) h = go (d == c) (push_member-nonempty c n gs h.1)
  where
    go :
        (b : Bool)
        → AllNonempty (members (push_member c n gs))
        → AllNonempty (members (if b then (d, ns ++ n ∷ []) ∷ gs else (d, ns) ∷ push_member c n gs))
    go true r = (append-nonempty ns n, h.1)
    go false r = (h.0, r)

pub group-nonempty :
    (of : CommunityOf) (gs : Members)
    → AllNonempty (members gs)
    → AllNonempty (members (group of gs))
unfolding group
group-nonempty [] gs h = h
group-nonempty ((n, c) ∷ of) gs h =
    group-nonempty of (push_member c n gs) (push_member-nonempty c n gs h)

insert_by-nonempty :
    (x : Uuid) (ys : List Uuid) (le : Uuid → Uuid → Bool) → is_empty (insert_by le x ys) ≡ false
insert_by-nonempty x [] le = refl
insert_by-nonempty x (y ∷ ys) le = ground arith

pub sort-nonempty : (c : List Uuid) → is_empty c ≡ false → is_empty (sort c) ≡ false
sort-nonempty [] h = h
sort-nonempty (x ∷ xs) h = insert_by-nonempty x (sort xs) leb

pub map-sort-nonempty : (cs : List (List Uuid)) → AllNonempty cs → AllNonempty (map sort cs)
map-sort-nonempty [] h = tt
map-sort-nonempty (c ∷ cs) h = (sort-nonempty c h.0, map-sort-nonempty cs h.1)

pub count-concat-map-sort :
    (a : Uuid) (cs : List (List Uuid)) → count a (concat (map sort cs)) ≡ count a (concat cs)
count-concat-map-sort a [] = refl
count-concat-map-sort a (c ∷ cs) = omega (
  arith,
  count-append a (sort c) (concat (map sort cs)),
  count-append a c (concat cs),
  count-sort a c,
  count-concat-map-sort a cs,
)

-- Every listed node has a community.
abbrev pub Covers : CommunityOf → List Uuid → Type 0
Covers of = All (λ n. contains (nodes_of of) n ≡ true)

pub group_all-total :
    (of : CommunityOf) (ns : List Uuid)
    → Covers of ns
    → (gs : Members) × (group_all of ns ≡ returns gs)
unfolding group_all
group_all-total of ns h = let r = pairs of ns h in (group r.0 [], rw (r.1))
  where
    pairs :
        (of : CommunityOf) (ns : List Uuid)
        → Covers of ns
        → (ps : CommunityOf) × (pairs_of of ns ≡ returns ps)
    pairs of [] h = ([], refl)
    pairs of (n ∷ ns) h =
        let c = index-total n of h.0 in let r = pairs of ns h.1 in ((n, c.0) ∷ r.0, rw (c.1, r.1))
