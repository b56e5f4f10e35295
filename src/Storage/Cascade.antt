-- ===== src/Storage/Cascade.antt =====
-- slayer/storage/base.py: what the deletion of a model, a datasource and a memory takes with it.
use slayer.Prelude.{
  ◌≡◌, ◌≢◌, refl, subst, ap, ◌∙◌, inl, inr, Bool, true, false, ◌&&◌, ◌||◌, not, any, Bool-cases,
  Option, none, some, List, [], ◌∷◌, ◌++◌, starts_with, arith, if◌then◌else◌,
}
use slayer.Prelude.Result.{ok, bind-ok, ok_eq}
use slayer.Prelude.Text.{Text, text, text_eq, text_eq_iff, member}
use slayer.Storage.{Identity, resolve_target_or_none}
use slayer.Storage.Embeddings.{caseless, delete_embeddings_for_canonical, sql_like-like_descendants}
use slayer.Storage.Rows.{
  Memory, Rows, memory_prefix, get_row, cascade, strip_dangling_entities_from_memories,
  same_identity, canonical_of, delete_model_row, delete_resolved, delete_model,
}
use slayer.Storage.Strip.{stripped_row, get_row-strip}

-- the id itself, or one that begins with it and a dot, letters of ASCII without their case
unfoldable pub is_under : Text → Text → Bool
unfolding text_eq starts_with
is_under e canonical_id =
    text_eq e canonical_id || starts_with (caseless (canonical_id ++ text ".")) (caseless e)

pub member-delete_embeddings :
    (canonical_id e : Text) (embeddings : List Text)
    → member e (delete_embeddings_for_canonical canonical_id embeddings)
      ≡ (member e embeddings && not (is_under e canonical_id))
unfolding delete_embeddings_for_canonical member is_under
member-delete_embeddings canonical_id e [] = refl
member-delete_embeddings canonical_id e (f ∷ embeddings) = elim (Bool-cases (text_eq f e)) [
  | inl same ↦
      let under : is_under f canonical_id ≡ is_under e canonical_id =
        ap (λ k. is_under k canonical_id) ((text_eq_iff f e).0 same) in
      ground (
        arith,
        member-delete_embeddings canonical_id e embeddings,
        sql_like-like_descendants canonical_id f,
        under,
      )
  | inr other ↦ ground (
    arith,
    member-delete_embeddings canonical_id e embeddings,
    sql_like-like_descendants canonical_id f,
  )
]

canonical_of_filled : (identity : Identity) → canonical_of identity ≢ []
canonical_of_filled ([], name) e = cc
canonical_of_filled (c ∷ ds, name) e = cc

any-delete_model_row :
    (i identity : Identity) (identities : List Identity)
    → any (λ j. same_identity j i) (delete_model_row identity identities)
      ≡ (any (λ j. same_identity j i) identities && not (same_identity i identity))
unfolding delete_model_row same_identity
any-delete_model_row i identity [] = refl
any-delete_model_row (ds, n) (ds', n') ((d, m) ∷ identities) = ground (
  arith,
  any-delete_model_row (ds, n) (ds', n') identities,
  text_eq_iff d ds,
  text_eq_iff m n,
  text_eq_iff d ds',
  text_eq_iff m n',
  text_eq_iff ds ds',
  text_eq_iff n n',
)

module _ {Query : Type 0} where
  -- Nothing of what is under the id is left, and the rest is as it was.
  unfoldable pub IsCleared : Text → Rows Query → Rows Query → Type 0
  IsCleared canonical_id rows rows' =
      ((e : Text)
        → member e rows'.embeddings ≡ (member e rows.embeddings && not (is_under e canonical_id)))
      × ((id : Text)
          → get_row rows'.memories id ≡ stripped_row canonical_id (get_row rows.memories id))

  cascade-IsCleared :
      (canonical_id : Text) (rows : Rows Query)
      → canonical_id ≢ []
      → IsCleared canonical_id rows (cascade canonical_id rows)
  unfolding IsCleared cascade strip_dangling_entities_from_memories
  cascade-IsCleared [] rows filled = absurd (filled refl)
  cascade-IsCleared (c ∷ canonical_id) rows filled = (
    λ e. member-delete_embeddings (c ∷ canonical_id) e rows.embeddings,
    λ id. get_row-strip (c ∷ canonical_id) rows.memories id,
  )

  -- the models that are stored but one
  abbrev pub Without : Identity → Rows Query → Rows Query → Type 0
  Without identity rows rows' =
      (i : Identity)
      → any (λ j. same_identity j i) rows'.identities
        ≡ (any (λ j. same_identity j i) rows.identities && not (same_identity i identity))

  deleted_by :
      (rows rows' : Rows Query) (target : Option Identity)
      → delete_resolved rows target ≡ (true, rows')
      → (identity : Identity) × (target ≡ some identity)
        × Without identity rows rows'
        × IsCleared (canonical_of identity) rows rows'
  unfolding delete_resolved cascade IsCleared
  deleted_by rows rows' none h = absurd (cc)
  deleted_by rows rows' (some identity) h =
      elim (Bool-cases (any (λ i. same_identity i identity) rows.identities)) [
        | inl stored ↦
            let kept = record rows { identities = delete_model_row identity rows.identities } in
            let same : cascade (canonical_of identity) kept ≡ rows' =
              ap (λ (p : Bool × Rows Query). p.1) (rw (stored, delete_resolved) at h) in
            (
              identity,
              refl,
              subst (Without identity rows) same
                  (λ i. any-delete_model_row i identity rows.identities),
              subst (IsCleared (canonical_of identity) rows) same
                  (cascade-IsCleared (canonical_of identity) kept (canonical_of_filled identity)),
            )
        | inr absent ↦ absurd (
            true_ne_false (ap (λ (p : Bool × Rows Query). p.0) (rw (absent, delete_resolved) at h)))
      ]
    where
      true_ne_false : false ≢ true
      true_ne_false e = cc

  -- A deletion that reports success deletes the model that the name resolves to and no other: it
  -- takes the embedding with that model's id and those whose ids begin with it and a dot, case apart,
  -- and removes from each memory the entities that the
  -- cascade matches; every other embedding, memory and entity stays.
  pub delete_model-IsCleared :
      (rows rows' : Rows Query) (name : Text) (data_source : Option Text)
      → delete_model rows name data_source ≡ ok (true, rows')
      → (identity : Identity) × (resolve_target_or_none rows.identities rows.priority name
            data_source
          ≡ ok (some identity))
        × Without identity rows rows'
        × IsCleared (canonical_of identity) rows rows'
  unfolding delete_model
  delete_model-IsCleared rows rows' name data_source h =
      let (target, found, e) =
        bind-ok (resolve_target_or_none rows.identities rows.priority name data_source)
          (λ target. ok (delete_resolved rows target)) h in
      let (identity, is_target, without, cleared) =
        deleted_by rows rows' target (ok_eq (delete_resolved rows target) (true, rows') e) in
      (identity, found ∙ ap (λ t. ok t) is_target, without, cleared)

  abbrev Forgotten : Text → Rows Query → Rows Query → Type 0
  Forgotten memory_id rows rows' =
      ((id : Text)
        → get_row rows'.memories id ≡ (
            if text_eq memory_id id
            then none
            else stripped_row (memory_prefix ++ memory_id) (get_row rows.memories id)))
      × ((e : Text)
          → member e rows'.embeddings
            ≡ (member e rows.embeddings && not (is_under e (memory_prefix ++ memory_id))))
      × ((id : Text) (m : Memory Query)
          → get_row rows'.memories id ≡ some m
          → member (memory_prefix ++ memory_id) m.entities ≡ false)
