-- ===== src/Storage/Strip.antt =====
-- slayer/storage/base.py: `strip_dangling_entities_from_memories`, followed one memory at a time.
use slayer.Prelude.{
  ◌≡◌, refl, sym, subst, ap, ◌∙◌, ◌↔◌, ◌⊎◌, inl, inr, Bool, true, false, ◌&&◌, any, Bool-cases,
  Option, none, some, List, [], ◌∷◌, arith, if◌then◌else◌,
}
use slayer.Prelude.Text.{Text, text_eq, text_eq_iff}
use slayer.Storage.Rows.{
  Memory, entity_matches_cascade, is_memory_ref, keep_entities, same_texts, get_row, save_row,
  has_cascade_candidate, rewrite_memory, strip_each,
}

same_texts_iff : (ss ts : List Text) → (same_texts ss ts ≡ true) ↔ (ss ≡ ts)
unfolding same_texts
same_texts_iff [] [] = (λ _. refl, λ _. refl)
same_texts_iff [] (t ∷ ts) = (λ h. absurd (cc), λ e. absurd (cc))
same_texts_iff (s ∷ ss) [] = (λ h. absurd (cc), λ e. absurd (cc))
same_texts_iff (s ∷ ss) (t ∷ ts) = (
  λ h. cons_eq ((text_eq_iff s t).0 (ground (arith))) ((same_texts_iff ss ts).0 (ground (arith))),
  λ e. ground (arith, text_eq_iff s t, same_texts_iff ss ts),
)
  where
    cons_eq : s ≡ t → ss ≡ ts → s ∷ ss ≡ t ∷ ts
    cons_eq e f = cc

keep_entities-keep_entities :
    (canonical_id : Text) (entities : List Text)
    → keep_entities canonical_id (keep_entities canonical_id entities)
      ≡ keep_entities canonical_id entities
unfolding keep_entities
keep_entities-keep_entities canonical_id [] = refl
keep_entities-keep_entities canonical_id (e ∷ entities) =
    ground (arith, keep_entities-keep_entities canonical_id entities)

module _ {Query : Type 0} where
  get_row-save_row :
      (new : Memory Query) (id : Text) (memories : List (Memory Query))
      → get_row (save_row memories new) id
        ≡ (if text_eq new.id id then some new else get_row memories id)
  unfolding get_row save_row
  get_row-save_row new id [] = refl
  get_row-save_row new id (m ∷ memories) = ground (
    arith,
    get_row-save_row new id memories,
    text_eq_iff m.id new.id,
    text_eq_iff m.id id,
    text_eq_iff new.id id,
  )

  get_row_id :
      (memories : List (Memory Query)) (id : Text) (m : Memory Query)
      → get_row memories id ≡ some m
      → m.id ≡ id
  unfolding get_row
  get_row_id [] id m h = absurd (cc)
  get_row_id (k ∷ memories) id m h = elim (Bool-cases (text_eq k.id id)) [
    | inl same ↦
        let e : k ≡ m = some_eq (rw (same, get_row) at h) in
        sym (ap (λ j. j.id) e) ∙ (text_eq_iff k.id id).0 same
    | inr other ↦ get_row_id memories id m (rw (other, get_row) at h)
  ]
    where
      some_eq : some k ≡ some m → k ≡ m
      some_eq e = cc

  module _ (canonical_id : Text) where
    -- the memory without the entities that the deletion takes
    abbrev pub stripped : Memory Query → Memory Query
    stripped m = record m { entities = keep_entities canonical_id m.entities }

    abbrev pub stripped_row : Option (Memory Query) → Option (Memory Query)
    stripped_row none = none
    stripped_row (some m) = some (stripped m)

    untouched :
        (m : Memory Query)
        → has_cascade_candidate canonical_id m ≡ false
        → keep_entities canonical_id m.entities ≡ m.entities
    unfolding keep_entities has_cascade_candidate
    untouched m h = none_taken m.entities h
      where
        none_taken :
            (entities : List Text)
            → any (λ e. entity_matches_cascade e canonical_id (is_memory_ref canonical_id)) entities
              ≡ false
            → keep_entities canonical_id entities ≡ entities
        none_taken [] h = refl
        none_taken (e ∷ entities) h = ground (arith, none_taken entities)

    get_row-rewrite_memory :
        (memories : List (Memory Query)) (id asked : Text)
        → get_row (rewrite_memory canonical_id memories (get_row memories id)) asked ≡ (
            if text_eq id asked
            then stripped_row (get_row memories asked)
            else get_row memories asked)
    unfolding rewrite_memory
    get_row-rewrite_memory memories id asked = rewritten (get_row memories id) refl
      where
        rewritten :
            (found : Option (Memory Query))
            → get_row memories id ≡ found
            → get_row (rewrite_memory canonical_id memories found) asked ≡ (
                if text_eq id asked
                then stripped_row (get_row memories asked)
                else get_row memories asked)
        rewritten none e = elim (Bool-cases (text_eq id asked)) [
          | inl same ↦
              let missing : get_row memories asked ≡ none =
                subst (λ k. get_row memories k ≡ none) ((text_eq_iff id asked).0 same) e in
              ground (arith, missing)
          | inr other ↦ ground (arith)
        ]
        rewritten (some m) e =
            let kept = keep_entities canonical_id m.entities in
            let own : m.id ≡ id = get_row_id memories id m e in
            let written = get_row-save_row (stripped m) asked memories in
            let found = text_eq_iff id asked in
            elim (Bool-cases (text_eq id asked)) [
              | inl same ↦
                  let here : get_row memories asked ≡ some m =
                    subst (λ k. get_row memories k ≡ some m) (found.0 same) e in
                  let mine : text_eq m.id asked ≡ true = ap (λ k. text_eq k asked) own ∙ same in
                  elim (Bool-cases (same_texts kept m.entities)) [
                    | inl unchanged ↦
                        let kept_eq : kept ≡ m.entities =
                          (same_texts_iff kept m.entities).0 unchanged in
                        let whole : stripped m ≡ m =
                          ap (λ es. record m { entities = es }) kept_eq in
                        ground (arith, here, unchanged, whole)
                    | inr changed ↦ ground (arith, here, changed, written, mine)
                  ]
              | inr other ↦
                  let mine : text_eq m.id asked ≡ false = ap (λ k. text_eq k asked) own ∙ other in
                  elim (Bool-cases (same_texts kept m.entities)) [
                    | inl unchanged ↦ ground (arith, unchanged)
                    | inr changed ↦ ground (arith, changed, written, mine)
                  ]
            ]

    -- a memory that was listed under the id has something to lose
    abbrev listed_for : Text → Memory Query → Bool
    listed_for asked m = has_cascade_candidate canonical_id m && text_eq m.id asked

    get_row-strip_each :
        (listed memories : List (Memory Query)) (asked : Text)
        → get_row (strip_each canonical_id listed memories) asked ≡ (
            if any (listed_for asked) listed
            then stripped_row (get_row memories asked)
            else get_row memories asked)
    unfolding strip_each
    get_row-strip_each [] memories asked = refl
    get_row-strip_each (m ∷ listed) memories asked =
        elim (Bool-cases (has_cascade_candidate canonical_id m)) [
          | inl candidate ↦ ground (
            arith,
            candidate,
            get_row-strip_each listed (rewrite_memory canonical_id memories (get_row memories m.id))
                asked,
            get_row-rewrite_memory memories m.id asked,
            stripped_row_twice (get_row memories asked),
          )
          | inr unconcerned ↦ ground (arith, unconcerned, get_row-strip_each listed memories asked)
        ]
      where
        stripped_row_twice :
            (found : Option (Memory Query)) → stripped_row (stripped_row found) ≡ stripped_row found
        stripped_row_twice none = refl
        stripped_row_twice (some m) =
            ap (λ es. some (record m { entities = es }))
              (keep_entities-keep_entities canonical_id m.entities)

    listed_row :
        (memories : List (Memory Query)) (asked : Text)
        → (any (listed_for asked) memories ≡ true)
          ⊎ (stripped_row (get_row memories asked) ≡ get_row memories asked)
    unfolding get_row
    listed_row [] asked = inr refl
    listed_row (m ∷ memories) asked = elim (Bool-cases (text_eq m.id asked)) [
      | inl same ↦ elim (Bool-cases (has_cascade_candidate canonical_id m)) [
        | inl candidate ↦ inl (ground (arith))
        | inr unconcerned ↦
            let whole : stripped m ≡ m =
              ap (λ es. record m { entities = es }) (untouched m unconcerned) in
            inr (ground (arith, whole))
      ]
      | inr other ↦ elim (listed_row memories asked) [
        | inl found ↦ inl (ground (arith))
        | inr kept ↦ inr (ground (arith, kept))
      ]
    ]

    -- each memory loses the entities that match, and keeps the rest
    pub get_row-strip :
        (memories : List (Memory Query)) (asked : Text)
        → get_row (strip_each canonical_id memories memories) asked
          ≡ stripped_row (get_row memories asked)
    get_row-strip memories asked = elim (listed_row memories asked) [
      | inl listed ↦ get_row-strip_each memories memories asked ∙ rw (listed) refl
      | inr kept ↦ ground (arith, get_row-strip_each memories memories asked, kept)
    ]
