-- ===== src/Storage/Identity.antt =====
-- slayer/storage/base.py: `resolve_model_identity`.
use slayer.Prelude.{
  ◌≡◌, refl, subst, sym, ap, ◌∙◌, inl, inr, Bool, true, false, ◌&&◌, any, Bool-cases, Option, none,
  some, List, [], ◌∷◌, arith,
}
use slayer.Prelude.Result.{Result, err, ok}
use slayer.Prelude.Text.{Text, text_eq, text_eq_iff, member}
use slayer.Storage.{
  StorageError, ambiguous_model, Identity, candidates, first_in, by_priority, preferred,
  among_several, choose, resolve_model_identity,
}

-- a model of that name is stored in the datasource
unfoldable pub is_stored : List Identity → Text → Text → Bool
unfolding text_eq
is_stored identities ds name = any (λ i. text_eq i.0 ds && text_eq i.1 name) identities

member-candidates :
    (identities : List Identity) (ds name : Text)
    → member ds (candidates identities name) ≡ is_stored identities ds name
unfolding candidates is_stored member
member-candidates [] ds name = refl
member-candidates ((d, n) ∷ identities) ds name =
    ground (arith, member-candidates identities ds name)

-- the datasource comes first in the list among those that hold a model of the name
pub data IsFirst (identities : List Identity) (name ds : Text) : List Text → Type 0 where
  here :
      {priority : List Text}
      → is_stored identities ds name ≡ true
      → IsFirst identities name ds (ds ∷ priority)
  later :
      {p : Text} {priority : List Text}
      → is_stored identities p name ≡ false
      → IsFirst identities name ds priority
      → IsFirst identities name ds (p ∷ priority)

IsFirst-first_in :
    (identities : List Identity) (name ds : Text) (priority : List Text)
    → first_in priority (candidates identities name) ≡ some ds
    → IsFirst identities name ds priority
unfolding first_in
IsFirst-first_in identities name ds [] h = absurd (cc)
IsFirst-first_in identities name ds (p ∷ priority) h =
    elim (Bool-cases (member p (candidates identities name))) [
      | inl held ↦
          let same : p ≡ ds = some_eq (rw (held, first_in) at h) in
          subst (λ k. IsFirst identities name ds (k ∷ priority)) (sym same)
            (here (
              subst (λ k. is_stored identities k name ≡ true) same
                (sym (member-candidates identities p name) ∙ held)))
      | inr absent ↦
          later (sym (member-candidates identities p name) ∙ absent)
            (IsFirst-first_in identities name ds priority (rw (absent, first_in) at h))
    ]
  where
    some_eq : some p ≡ some ds → p ≡ ds
    some_eq e = cc

first_in-none :
    (identities : List Identity) (name : Text) (priority : List Text)
    → first_in priority (candidates identities name) ≡ none
    → (p : Text) → member p priority ≡ true
    → is_stored identities p name ≡ false
unfolding first_in member
first_in-none identities name [] h p m = absurd (cc)
first_in-none identities name (q ∷ priority) h p m =
    elim (Bool-cases (member q (candidates identities name))) [
      | inl held ↦ absurd (ground (arith))
      | inr absent ↦ elim (Bool-cases (text_eq q p)) [
        | inl same ↦
            subst (λ k. is_stored identities k name ≡ false) ((text_eq_iff q p).0 same)
              (sym (member-candidates identities q name) ∙ absent)
        | inr other ↦
            first_in-none identities name priority (rw (absent, first_in) at h) p (ground (arith))
      ]
    ]

-- a model of the name is stored, in one datasource or in several
unfoldable pub Several : List Identity → Text → Type 0
Several identities name =
    (ds : Text) × (ds' : Text) × (rest : List Text) × (candidates identities name ≡ ds ∷ ds' ∷ rest)

module _ (identities : List Identity) (priority : List Text) (name : Text)
    (prefer : Option Text) where
  -- the answers of a lookup, with what each of them says
  pub data Resolved : Result StorageError (Option Identity) → Type 0 where
    nothing : ((ds : Text) → is_stored identities ds name ≡ false) → Resolved (ok none)
    only : {ds : Text} → candidates identities name ≡ ds ∷ [] → Resolved (ok (some (ds, name)))
    by_preference :
        {ds : Text}
        → prefer ≡ some ds
        → is_stored identities ds name ≡ true
        → Resolved (ok (some (ds, name)))
    by_order : {ds : Text} → IsFirst identities name ds priority → Resolved (ok (some (ds, name)))
    ambiguous :
        Several identities name
        → ((p : Text) → prefer ≡ some p → is_stored identities p name ≡ false)
        → ((p : Text) → member p priority ≡ true → is_stored identities p name ≡ false)
        → Resolved (err (ambiguous_model name (candidates identities name)))

  stored_in :
      (found : List Text) (ds : Text)
      → candidates identities name ≡ found
      → member ds found ≡ is_stored identities ds name
  stored_in found ds e = ap (member ds) (sym e) ∙ member-candidates identities ds name

  Resolved-by_priority :
      (ds ds' : Text) (rest : List Text)
      → candidates identities name ≡ ds ∷ ds' ∷ rest
      → ((p : Text) → prefer ≡ some p → is_stored identities p name ≡ false)
      → (first : Option Text) → first_in priority (candidates identities name) ≡ first
      → Resolved (by_priority name (candidates identities name) first)
  unfolding by_priority Several
  Resolved-by_priority ds ds' rest e unpreferred none h =
      ambiguous (ds, ds', rest, e) unpreferred (first_in-none identities name priority h)
  Resolved-by_priority ds ds' rest e unpreferred (some p) h =
      by_order (IsFirst-first_in identities name p priority h)

  preferred_stored :
      {p : Text} (asked : Option Text)
      → preferred asked (candidates identities name) ≡ some p
      → (asked ≡ some p) × (is_stored identities p name ≡ true)
  unfolding preferred
  preferred_stored none h = absurd (cc)
  preferred_stored {p} (some q) h = elim (Bool-cases (member q (candidates identities name))) [
    | inl held ↦
        let same : q ≡ p = some_eq q p (rw (held, preferred) at h) in
        (
          ap some same,
          subst (λ k. is_stored identities k name ≡ true) same
              (sym (member-candidates identities q name) ∙ held),
        )
    | inr absent ↦ absurd (ground (arith))
  ]
    where
      some_eq : (a b : Text) → some a ≡ some b → a ≡ b
      some_eq a b e = cc

  unpreferred_by :
      (asked : Option Text)
      → preferred asked (candidates identities name) ≡ none
      → (p : Text) → asked ≡ some p
      → is_stored identities p name ≡ false
  unfolding preferred
  unpreferred_by none h p e = absurd (cc)
  unpreferred_by (some q) h p e = elim (Bool-cases (member q (candidates identities name))) [
    | inl held ↦ absurd (ground (arith))
    | inr absent ↦
        subst (λ k. is_stored identities k name ≡ false) (some_eq e)
          (sym (member-candidates identities q name) ∙ absent)
  ]
    where
      some_eq : some q ≡ some p → q ≡ p
      some_eq e = cc

  Resolved-among_several :
      (ds ds' : Text) (rest : List Text)
      → candidates identities name ≡ ds ∷ ds' ∷ rest
      → (preference : Option Text) → preferred prefer (candidates identities name) ≡ preference
      → Resolved (among_several name (candidates identities name) priority preference)
  unfolding among_several
  Resolved-among_several ds ds' rest e none h =
      Resolved-by_priority ds ds' rest e (unpreferred_by prefer h) _ refl
  Resolved-among_several ds ds' rest e (some p) h =
      let (same, stored) = preferred_stored prefer h in by_preference same stored

  Resolved-choose :
      (found : List Text)
      → candidates identities name ≡ found
      → Resolved (choose name priority prefer found)
  unfolding choose member
  Resolved-choose [] e = nothing (λ ds. sym (stored_in [] ds e))
  Resolved-choose (ds ∷ []) e = only e
  Resolved-choose (ds ∷ ds' ∷ rest) e =
      subst (λ found. Resolved (among_several name found priority (preferred prefer found))) e
        (Resolved-among_several ds ds' rest e _ refl)

  -- Nothing is answered only where no datasource holds the name. The identity that is answered is
  -- the only one of that name, or the one in the preferred datasource, or the one in the datasource
  -- that comes first in the priority list among those that hold it; and the name is ambiguous only
  -- where several datasources hold it, neither the preferred one nor one of the priority list.
  pub resolve_model_identity-Resolved :
      Resolved (resolve_model_identity identities priority name prefer)
  unfolding resolve_model_identity
  resolve_model_identity-Resolved = Resolved-choose (candidates identities name) refl
