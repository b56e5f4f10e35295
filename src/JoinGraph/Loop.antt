-- ===== src/JoinGraph/Loop.antt =====
-- One round of `reachable_from` of slayer/engine/join_graph.py: what it adds, and a number that
-- no round makes larger.
use slayer.Prelude.{
  ℕ, suc, ◌+◌, ◌≤◌, ◌≡◌, refl, ◌⊎◌, Bool, true, false, ◌||◌, not, ◌&&◌, List, [], ◌∷◌, ◌++◌, length,
  length-append, arith, if◌then◌else◌,
}
use slayer.Prelude.Text.{Text, text_eq_iff, member}
use slayer.JoinGraph.{Adjacency, neighbours, Search, visit_all, count_targets}
use slayer.JoinGraph.Build.{member-append}

-- how many of the names are not among those seen
pub unseen : List Text → List Text → ℕ
unseen seen [] = 0
unseen seen (n ∷ names) = (if member n seen then 0 else 1) + unseen seen names

abbrev pub targets_of : Adjacency → List Text
targets_of [] = []
targets_of ((name, targets) ∷ adj) = targets ++ targets_of adj

pub visit_all-seen :
    (s : Search) (nbrs : List Text) (v : Text)
    → member v (visit_all s nbrs).seen ≡ (member v s.seen || member v nbrs)
unfolding visit_all member
visit_all-seen s [] v = ground arith
visit_all-seen s (n ∷ nbrs) v = ground (
  arith,
  visit_all-seen s nbrs v,
  visit_all-seen (record { seen = s.seen ++ n ∷ []; frontier = s.frontier ++ n ∷ [] }) nbrs v,
  member-append v s.seen (n ∷ []),
  text_eq_iff n v,
)

-- what is added to the frontier is exactly what was not seen before
pub visit_all-frontier :
    (s : Search) (nbrs : List Text) (v : Text)
    → member v (visit_all s nbrs).frontier
      ≡ (member v s.frontier || (not (member v s.seen) && member v nbrs))
unfolding visit_all member
visit_all-frontier s [] v = ground arith
visit_all-frontier s (n ∷ nbrs) v = ground (
  arith,
  visit_all-frontier s nbrs v,
  visit_all-frontier (record { seen = s.seen ++ n ∷ []; frontier = s.frontier ++ n ∷ [] }) nbrs v,
  member-append v s.seen (n ∷ []),
  member-append v s.frontier (n ∷ []),
  text_eq_iff n v,
)

module _ (seen : List Text) (n : Text) where
  unseen-append-le : (names : List Text) → unseen (seen ++ n ∷ []) names ≤ unseen seen names
  unfolding unseen
  unseen-append-le [] = omega arith
  unseen-append-le (m ∷ names) =
      ground (arith, unseen-append-le names, member-append m seen (n ∷ []))

  unseen-append-lt :
      (names : List Text)
      → member n seen ≡ false
      → member n names ≡ true
      → suc (unseen (seen ++ n ∷ []) names) ≤ unseen seen names
  unfolding unseen member
  unseen-append-lt [] h k = absurd (cc)
  unseen-append-lt (m ∷ names) h k = ground (
    arith,
    unseen-append-lt names,
    unseen-append-le names,
    member-append m seen (n ∷ []),
    text_eq_iff m n,
    text_eq_iff n m,
  )

pub unseen-le-length : (seen names : List Text) → unseen seen names ≤ length names
unfolding unseen
unseen-le-length seen [] = omega arith
unseen-le-length seen (n ∷ names) = ground (arith, unseen-le-length seen names)

unfoldable pub all_member : List Text → List Text → Bool
all_member [] names = true
all_member (n ∷ ns) names = member n names && all_member ns names

-- names that can still come, and names that wait
abbrev pub work : List Text → Search → ℕ
work names s = unseen s.seen names + length s.frontier

pub work-visit_all :
    (names : List Text) (s : Search) (nbrs : List Text)
    → all_member nbrs names ≡ true
    → work names (visit_all s nbrs) ≤ work names s
unfolding visit_all all_member
work-visit_all names s [] h = omega arith
work-visit_all names s (n ∷ nbrs) h = ground (
  arith,
  work-visit_all names s nbrs,
  work-visit_all names (record { seen = s.seen ++ n ∷ []; frontier = s.frontier ++ n ∷ [] }) nbrs,
  unseen-append-lt s.seen n names,
  length-append s.frontier (n ∷ []),
)

all_member-append :
    (ns xs ys : List Text)
    → ((all_member ns xs ≡ true) ⊎ (all_member ns ys ≡ true))
    → all_member ns (xs ++ ys) ≡ true
unfolding all_member
all_member-append [] xs ys h = refl
all_member-append (n ∷ ns) xs ys h =
    ground (arith, member-append n xs ys, all_member-append ns xs ys)

all_member-cons :
    (ns : List Text) (t : Text) (names : List Text)
    → all_member ns names ≡ true
    → all_member ns (t ∷ names) ≡ true
unfolding all_member member
all_member-cons [] t names h = refl
all_member-cons (n ∷ ns) t names h = ground (arith, all_member-cons ns t names)

all_member_self : (ns : List Text) → all_member ns ns ≡ true
unfolding all_member member
all_member_self [] = refl
all_member_self (n ∷ ns) =
    ground (arith, text_eq_iff n n, all_member-cons ns n ns (all_member_self ns))

pub neighbours-targets_of :
    (adj : Adjacency) (n : Text) → all_member (neighbours adj n) (targets_of adj) ≡ true
unfolding neighbours all_member
neighbours-targets_of [] n = refl
neighbours-targets_of ((name, targets) ∷ adj) n = ground (
  arith,
  all_member_self targets,
  all_member-append targets targets (targets_of adj),
  neighbours-targets_of adj n,
  all_member-append (neighbours adj n) targets (targets_of adj),
)

pub length-targets_of : (adj : Adjacency) → length (targets_of adj) ≡ count_targets adj
unfolding count_targets
length-targets_of [] = refl
length-targets_of ((name, targets) ∷ adj) =
    omega (arith, length-append targets (targets_of adj), length-targets_of adj)
