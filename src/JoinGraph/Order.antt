-- ===== src/JoinGraph/Order.antt =====
-- The order of the hop sequences that `shortest_path` of slayer/engine/join_graph.py takes the
-- least of: that of Python's lists of strings.
use slayer.Prelude.{◌≡◌, refl, true, false, List, [], ◌∷◌, ◌++◌, length, arith}
use slayer.Prelude.Text.{Text, text_eq_iff, text_leb}
use slayer.JoinGraph.Paths.{hops_leb}

pub text_leb_refl : (s : Text) → text_leb s s ≡ true
unfolding text_leb
text_leb_refl [] = refl
text_leb_refl (a ∷ s) = ground (arith, text_leb_refl s)

pub text_leb_total : (s t : Text) → text_leb s t ≡ false → text_leb t s ≡ true
unfolding text_leb
text_leb_total [] t h = absurd (cc)
text_leb_total (a ∷ s) [] h = refl
text_leb_total (a ∷ s) (b ∷ t) h = ground (arith, text_leb_total s t)

pub text_leb_trans :
    (s t u : Text) → text_leb s t ≡ true → text_leb t u ≡ true → text_leb s u ≡ true
unfolding text_leb
text_leb_trans [] t u h k = refl
text_leb_trans (a ∷ s) [] u h k = absurd (cc)
text_leb_trans (a ∷ s) (b ∷ t) [] h k = absurd (cc)
text_leb_trans (a ∷ s) (b ∷ t) (c ∷ u) h k = ground (arith, text_leb_trans s t u)

pub text_leb_antisym : (s t : Text) → text_leb s t ≡ true → text_leb t s ≡ true → s ≡ t
unfolding text_leb
text_leb_antisym [] [] h k = refl
text_leb_antisym [] (b ∷ t) h k = absurd (cc)
text_leb_antisym (a ∷ s) [] h k = absurd (cc)
text_leb_antisym (a ∷ s) (b ∷ t) h k = ground (arith, text_leb_antisym s t)

pub hops_leb_refl : (p : List Text) → hops_leb p p ≡ true
unfolding hops_leb
hops_leb_refl [] = refl
hops_leb_refl (a ∷ p) = ground (arith, hops_leb_refl p, text_eq_iff a a)

pub hops_leb_total : (p q : List Text) → hops_leb p q ≡ false → hops_leb q p ≡ true
unfolding hops_leb
hops_leb_total [] q h = absurd (cc)
hops_leb_total (a ∷ p) [] h = refl
hops_leb_total (a ∷ p) (b ∷ q) h = ground (
  arith,
  hops_leb_total p q,
  text_eq_iff a b,
  text_eq_iff b a,
  text_leb_total a b,
  text_leb_antisym a b,
)

pub hops_leb_trans :
    (p q r : List Text) → hops_leb p q ≡ true → hops_leb q r ≡ true → hops_leb p r ≡ true
unfolding hops_leb
hops_leb_trans [] q r h k = refl
hops_leb_trans (a ∷ p) [] r h k = absurd (cc)
hops_leb_trans (a ∷ p) (b ∷ q) [] h k = absurd (cc)
hops_leb_trans (a ∷ p) (b ∷ q) (c ∷ r) h k = ground (
  arith,
  hops_leb_trans p q r,
  text_eq_iff a b,
  text_eq_iff b c,
  text_eq_iff a c,
  text_leb_trans c a b,
  text_leb_trans b c a,
  text_leb_total a b,
  text_leb_total b c,
  text_leb_total c a,
)

pub hops_leb-append :
    (p q r : List Text)
    → length p ≡ length q
    → hops_leb p q ≡ true
    → hops_leb (p ++ r) (q ++ r) ≡ true
unfolding hops_leb
hops_leb-append [] [] r e h = hops_leb_refl r
hops_leb-append [] (b ∷ q) r e h = absurd (omega arith)
hops_leb-append (a ∷ p) [] r e h = absurd (omega arith)
hops_leb-append (a ∷ p) (b ∷ q) r e h = ground (arith, hops_leb-append p q r)
