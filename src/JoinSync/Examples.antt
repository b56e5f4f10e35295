-- ===== src/JoinSync/Examples.antt =====
-- Tests of slayer/storage/join_sync.py and the witnesses of its theorems.
use slayer.Prelude.{◌&&◌, ◌||◌, ◌≡◌, refl, true, false, Option, none, some, List, [], ◌∷◌, arith}
use slayer.Prelude.Result.{Result, ok}
use slayer.Prelude.Text.{Text, text}
use slayer.JoinSync.{
  inner, ModelJoin, SlayerModel, Backend, save_model_impl, delete_model, wrapper_save,
  ensure_reconciled,
}
use slayer.JoinSync.Effects.{IsLawful, is_some}
use slayer.JoinSync.Save.{synced, get-save_model_impl}
use slayer.JoinSync.Memory.{memory, get_in, delete_in, resolve_in, memory-IsLawful}
use slayer.JoinSync.Symmetry.{joins_to, IsSymmetric, save_model_impl-IsSymmetric}
use slayer.JoinSync.Reconcile.{ensure_reconciled-IsSymmetric}
use slayer.JoinSync.Delete.{target_of, Removed, get-delete_model}

abbrev accept : SlayerModel Text → Result Text (Unit {0})
accept m = ok tt

abbrev B : Backend Text
B = memory accept

abbrev L : IsLawful B
L = memory-IsLawful accept

abbrev join_to : Text → Text → Text → ModelJoin Text
join_to name source target = record {
  target_model = name;
  join_pairs = (source, target) ∷ [];
  join_type = inner;
  other = none;
}

abbrev model_of : Text → List (ModelJoin Text) → SlayerModel Text
model_of name joins = record { name = name; data_source = text "db"; joins = joins; other = [] }

abbrev customers : SlayerModel Text
customers = model_of (text "customers") []

abbrev customers_back : SlayerModel Text
customers_back =
    model_of (text "customers") (join_to (text "orders") (text "id") (text "customer") ∷ [])

abbrev orders : SlayerModel Text
orders = model_of (text "orders") (join_to (text "customers") (text "customer") (text "id") ∷ [])

abbrev orders_alone : SlayerModel Text
orders_alone = model_of (text "orders") []

saves : save_model_impl B orders (customers ∷ []) ≡ ok (customers_back ∷ orders ∷ [])
unfolding save_model_impl get_in delete_in
saves = refl

-- a version without the join removes the reverse one
saves_again :
    save_model_impl B orders_alone (customers_back ∷ orders ∷ [])
    ≡ ok (customers ∷ orders_alone ∷ [])
unfolding save_model_impl get_in delete_in
saves_again = refl

-- the first access repairs the other model, which then loses its join again
deletes :
    delete_model B false (text "orders") none (customers ∷ orders ∷ []) ≡ ok (true, customers ∷ [])
unfolding delete_model get_in delete_in resolve_in is_some
deletes = refl

deletes_nothing :
    delete_model B true (text "gone") (some (text "db")) (customers ∷ [])
    ≡ ok (false, customers ∷ [])
unfolding delete_model get_in delete_in is_some
deletes_nothing = refl

-- the first access also repairs what is stored
reconciles :
    wrapper_save B false (model_of (text "x") []) (orders ∷ customers ∷ [])
    ≡ ok (model_of (text "x") [] ∷ customers_back ∷ orders ∷ [])
unfolding wrapper_save get_in delete_in
reconciles = refl

-- a join that was stored before its target leaves the target without its reverse
one_way : save_model_impl B customers (orders ∷ []) ≡ ok (customers ∷ orders ∷ [])
unfolding save_model_impl get_in delete_in
one_way = refl

get-save_model_impl_example :
    get_in (customers_back ∷ orders ∷ []) (text "db") (text "customers")
    ≡ synced orders none (text "customers") (some customers)
unfolding get_in
get-save_model_impl_example =
    get-save_model_impl B L orders (customers ∷ []) (customers_back ∷ orders ∷ []) (text "db")
      (text "customers") saves

no_joins : (a x : Text) → joins_to (get_in (customers ∷ []) (text "db") a) a x ≡ false
unfolding get_in joins_to
no_joins a x = ground (arith)

no_joins-IsSymmetric : IsSymmetric B (customers ∷ []) (text "db")
unfolding IsSymmetric
no_joins-IsSymmetric a b h stored = absurd (ground (arith, no_joins a b))

save_model_impl-IsSymmetric_example : IsSymmetric B (customers_back ∷ orders ∷ []) (text "db")
save_model_impl-IsSymmetric_example =
    save_model_impl-IsSymmetric B L orders (customers ∷ []) (customers_back ∷ orders ∷ []) saves
      (λ a h. absurd (ground (arith, no_joins a (text "orders")))) no_joins-IsSymmetric

get-delete_model_example :
    (healed : List (SlayerModel Text)) × (ensure_reconciled B false (customers ∷ orders ∷ [])
      ≡ ok healed)
    × (target : Option (Text × Text)) × (target_of B healed (text "orders") none ≡ ok target)
    × Removed B healed (customers ∷ []) true target
get-delete_model_example =
    get-delete_model B L false (text "orders") none (customers ∷ orders ∷ []) (customers ∷ []) true
      deletes

heals : ensure_reconciled B false (orders ∷ customers ∷ []) ≡ ok (customers_back ∷ orders ∷ [])
unfolding ensure_reconciled get_in delete_in
heals = refl

ensure_reconciled-IsSymmetric_example :
    IsSymmetric B (customers_back ∷ orders ∷ []) (text "db")
    × ((a b : Text)
        → (is_some (get_in (customers_back ∷ orders ∷ []) (text "db") a)
            ≡ is_some (get_in (orders ∷ customers ∷ []) (text "db") a))
          × (joins_to (get_in (customers_back ∷ orders ∷ []) (text "db") a) a b ≡ (
              joins_to (get_in (orders ∷ customers ∷ []) (text "db") a) a b
              || (joins_to (get_in (orders ∷ customers ∷ []) (text "db") b) b a
                  && is_some (get_in (orders ∷ customers ∷ []) (text "db") a)))))
ensure_reconciled-IsSymmetric_example =
    ensure_reconciled-IsSymmetric B L (orders ∷ customers ∷ []) (customers_back ∷ orders ∷ [])
      (text "db") heals
