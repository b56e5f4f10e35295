-- ===== src/Storage/Names.antt =====
-- slayer/storage/sidecar_embedding_store.py: which embeddings of one model go with another.
use slayer.Prelude.{
  ◌≡◌, refl, ap, ◌∙◌, Bool, false, ◌&&◌, not, List, [], ◌∷◌, ◌++◌, starts_with, arith,
}
use slayer.Prelude.Text.{Text, text, text_eq, member}
use slayer.Storage.{has_char}
use slayer.Storage.Rows.{canonical_of}
use slayer.Storage.Embeddings.{lower_ascii, caseless, delete_embeddings_for_canonical}
use slayer.Storage.Cascade.{is_under, member-delete_embeddings}

-- A part of a model's id: nothing, or a dot and more.
pub data Tail : Text → Type 0 where
  whole : Tail []
  part : (leaf : Text) → Tail (b'.' ∷ leaf)

abbrev NoDot : Text → Type 0
NoDot name = has_char b'.' name ≡ false

-- whether the embedding of a model, or of a part of it, goes with a model: that of the model itself
-- only if it is that model, that of a part also if the names differ in the case of letters
abbrev pub goes_with : Text → Text → Text → Text → Text → Bool
goes_with [] ds name ds' name' = text_eq ds ds' && text_eq name name'
goes_with (c ∷ leaf) ds name ds' name' =
    text_eq (caseless ds) (caseless ds') && text_eq (caseless name) (caseless name')

equal_name :
    (name name' tail : Text)
    → NoDot name
    → Tail tail
    → text_eq (name' ++ tail) name ≡ (text_eq tail [] && text_eq name name')
unfolding text_eq
equal_name [] [] tail a whole = refl
equal_name [] [] tail a (part leaf) = refl
equal_name [] (d ∷ name') tail a whole = refl
equal_name [] (d ∷ name') tail a (part leaf) = refl
equal_name (c ∷ name) [] tail a whole = refl
equal_name (c ∷ name) [] tail a (part leaf) = ground (arith)
equal_name (c ∷ name) (d ∷ name') tail a t =
    ground (arith, equal_name name name' tail (ground (arith)) t)

equal_id :
    (ds ds' name name' tail : Text)
    → NoDot ds
    → NoDot ds'
    → text_eq ((ds' ++ text "." ++ name') ++ tail) (ds ++ text "." ++ name)
      ≡ (text_eq ds ds' && text_eq (name' ++ tail) name)
unfolding text_eq
equal_id [] [] name name' tail a b = ground (arith)
equal_id [] (d ∷ ds') name name' tail a b = ground (arith)
equal_id (c ∷ ds) [] name name' tail a b = ground (arith)
equal_id (c ∷ ds) (d ∷ ds') name name' tail a b =
    ground (arith, equal_id ds ds' name name' tail (ground (arith)) (ground (arith)))

below_name :
    (name name' tail : Text)
    → NoDot name
    → NoDot name'
    → Tail tail
    → starts_with (caseless (name ++ text ".")) (caseless (name' ++ tail))
      ≡ (not (text_eq tail []) && text_eq (caseless name) (caseless name'))
unfolding text_eq starts_with lower_ascii
below_name [] [] tail a b whole = ground (arith)
below_name [] [] tail a b (part leaf) = ground (arith)
below_name [] (d ∷ name') tail a b whole = ground (arith)
below_name [] (d ∷ name') tail a b (part leaf) = ground (arith)
below_name (c ∷ name) [] tail a b whole = ground (arith)
below_name (c ∷ name) [] tail a b (part leaf) = ground (arith)
below_name (c ∷ name) (d ∷ name') tail a b t =
    ground (arith, below_name name name' tail (ground (arith)) (ground (arith)) t)

below_id :
    (ds ds' name name' tail : Text)
    → NoDot ds
    → NoDot ds'
    → starts_with
        (caseless ((ds ++ text "." ++ name) ++ text "."))
        (caseless ((ds' ++ text "." ++ name') ++ tail))
      ≡ (text_eq (caseless ds) (caseless ds')
          && starts_with (caseless (name ++ text ".")) (caseless (name' ++ tail)))
unfolding text_eq starts_with lower_ascii
below_id [] [] name name' tail a b = ground (arith)
below_id [] (d ∷ ds') name name' tail a b = ground (arith)
below_id (c ∷ ds) [] name name' tail a b = ground (arith)
below_id (c ∷ ds) (d ∷ ds') name name' tail a b =
    ground (arith, below_id ds ds' name name' tail (ground (arith)) (ground (arith)))

is_under-goes_with :
    (ds name ds' name' tail : Text)
    → NoDot ds
    → NoDot name
    → NoDot ds'
    → NoDot name'
    → Tail tail
    → is_under (canonical_of (ds', name') ++ tail) (canonical_of (ds, name))
      ≡ goes_with tail ds name ds' name'
unfolding is_under text_eq
is_under-goes_with ds name ds' name' tail a b c d whole = ground (
  arith,
  equal_id ds ds' name name' [] a c,
  equal_name name name' [] b whole,
  below_id ds ds' name name' [] a c,
  below_name name name' [] b d whole,
)
is_under-goes_with ds name ds' name' tail a b c d (part leaf) = ground (
  arith,
  equal_id ds ds' name name' (b'.' ∷ leaf) a c,
  equal_name name name' (b'.' ∷ leaf) b (part leaf),
  below_id ds ds' name name' (b'.' ∷ leaf) a c,
  below_name name name' (b'.' ∷ leaf) b d (part leaf),
)

-- Between names without dots: the deletion of the embeddings under a model's id takes the embedding
-- of a model exactly if it is that model, and the embedding of a part of a model exactly if datasource
-- and name are those of that model, apart from the case of ASCII letters.
pub delete_embeddings-canonical_of :
    (ds name ds' name' tail : Text) (embeddings : List Text)
    → has_char b'.' ds ≡ false
    → has_char b'.' name ≡ false
    → has_char b'.' ds' ≡ false
    → has_char b'.' name' ≡ false
    → Tail tail
    → member
        (canonical_of (ds', name') ++ tail)
        (delete_embeddings_for_canonical (canonical_of (ds, name)) embeddings)
      ≡ (member (canonical_of (ds', name') ++ tail) embeddings
          && not (goes_with tail ds name ds' name'))
delete_embeddings-canonical_of ds name ds' name' tail embeddings a b c d t =
    let id = canonical_of (ds', name') ++ tail in
    member-delete_embeddings (canonical_of (ds, name)) id embeddings
    ∙ ap (λ gone. member id embeddings && not gone)
        (is_under-goes_with ds name ds' name' tail a b c d t)
