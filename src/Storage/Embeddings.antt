-- ===== src/Storage/Embeddings.antt =====
-- slayer/storage/sidecar_embedding_store.py: the deletion of the embeddings under an id, which
-- SQLite finds by LIKE. Its LIKE takes `%` for any run and `_` for any one character, and compares
-- letters of ASCII without their case.
use slayer.Prelude.{
  ℕ, ◌+◌, ◌≡◌, refl, ap, ◌∙◌, Bool, true, false, ◌&&◌, ◌||◌, not, List, [], ◌∷◌, ◌++◌, map, keep_if,
  eqb, leb, starts_with, if◌then◌else◌, arith,
}
use slayer.Prelude.Text.{Text, text, text_eq}

-- `s.replace(old, new)` for an `old` of one character
unfoldable pub replace_char : ℕ → Text → Text → Text
replace_char old new [] = []
replace_char old new (c ∷ s) =
    let rest = replace_char old new s in if eqb c old then new ++ rest else c ∷ rest

-- the pattern of `_delete_by_prefix_sync`
unfoldable pub like_descendants : Text → Text
unfolding replace_char
like_descendants prefix =
    replace_char b'_' (text "\\_")
      (replace_char b'%' (text "\\%") (replace_char b'\\' (text "\\\\") prefix))
    ++ text ".%"

-- what a pattern is made of; `dangling` is an escape at its end, which matches nothing
pub data LikeToken : Type 0 where
  any_run any_one dangling : LikeToken
  letter : ℕ → LikeToken

-- the tokens of a pattern with the escape `\`; the flag says that one was just read
unfoldable pub like_tokens : Bool → Text → List LikeToken
like_tokens false [] = []
like_tokens true [] = dangling ∷ []
like_tokens true (c ∷ p) = letter c ∷ like_tokens false p
like_tokens false (c ∷ p) =
    let rest = like_tokens (eqb c b'\\') p in
    if eqb c b'\\'
    then rest
    else if eqb c b'%'
    then any_run ∷ rest
    else if eqb c b'_'
    then any_one ∷ rest
    else letter c ∷ rest

unfoldable pub lower_ascii : ℕ → ℕ
lower_ascii c = if leb 65 c && leb c 90 then c + 32 else c

-- whether some rest of a text passes
abbrev pub some_rest : (Text → Bool) → Text → Bool
some_rest test [] = test []
some_rest test (c ∷ s) = test (c ∷ s) || some_rest test s

unfoldable pub like_match : List LikeToken → Text → Bool
unfolding lower_ascii
like_match [] [] = true
like_match [] (c ∷ s) = false
like_match (any_run ∷ ts) s = some_rest (like_match ts) s
like_match (any_one ∷ ts) [] = false
like_match (any_one ∷ ts) (c ∷ s) = like_match ts s
like_match (dangling ∷ ts) s = false
like_match (letter c ∷ ts) [] = false
like_match (letter c ∷ ts) (d ∷ s) = eqb (lower_ascii c) (lower_ascii d) && like_match ts s

-- `value LIKE pattern ESCAPE '\'`
unfoldable pub sql_like : Text → Text → Bool
unfolding like_match like_tokens
sql_like pattern value = like_match (like_tokens false pattern) value

-- `delete_embeddings_for_canonical`, over the ids of the rows
unfoldable pub delete_embeddings_for_canonical : Text → List Text → List Text
unfolding sql_like like_descendants text_eq
delete_embeddings_for_canonical prefix embeddings =
    keep_if (λ e. not (text_eq e prefix || sql_like (like_descendants prefix) e)) embeddings

-- the text that LIKE compares
abbrev pub caseless : Text → Text
caseless s = map lower_ascii s

like_tokens-like_descendants :
    (prefix : Text)
    → like_tokens false (like_descendants prefix) ≡ map letter prefix ++ letter b'.' ∷ any_run ∷ []
unfolding like_descendants replace_char like_tokens
like_tokens-like_descendants [] = refl
like_tokens-like_descendants (c ∷ prefix) = ground (arith, like_tokens-like_descendants prefix)

some_rest-empty : (s : Text) → some_rest (like_match []) s ≡ true
unfolding like_match
some_rest-empty [] = refl
some_rest-empty (c ∷ s) = some_rest-empty s

like_match-letters :
    (prefix value : Text)
    → like_match (map letter prefix ++ letter b'.' ∷ any_run ∷ []) value
      ≡ starts_with (caseless (prefix ++ text ".")) (caseless value)
unfolding like_match starts_with
like_match-letters [] [] = refl
like_match-letters [] (d ∷ value) = ground (arith, some_rest-empty value)
like_match-letters (c ∷ prefix) [] = refl
like_match-letters (c ∷ prefix) (d ∷ value) = ground (arith, like_match-letters prefix value)

-- The escapes are right: of an id and its pattern LIKE finds the texts that begin with the id and
-- a dot, case apart.
pub sql_like-like_descendants :
    (prefix value : Text)
    → sql_like (like_descendants prefix) value
      ≡ starts_with (caseless (prefix ++ text ".")) (caseless value)
unfolding sql_like
sql_like-like_descendants prefix value =
    ap (λ ts. like_match ts value) (like_tokens-like_descendants prefix)
    ∙ like_match-letters prefix value
