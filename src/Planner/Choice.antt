-- ===== src/Planner/Choice.antt =====
-- crates/nova-planner/src/lib.rs: an index is chosen for an equality that the query demands.
use novabase.Common.{
  ◌≡◌, ◌⊎◌, inl, inr, refl, sym, ap, ◌∙◌, Bool, true, Bool-cases, Option, none, some, List, [], ◌∷◌,
  String, filter, arith,
}
use novabase.Common.Key.{same, str_lt, string_key}
use novabase.Index.Key.{IndexKey}
use novabase.Intelligence.Advisor.{IndexDefinition}
use novabase.Query.Syntax.{and_operator, equal, Expression, literal, path, binary, Query}
use novabase.Planner.{
  collection_scan, index_scan, or_else, same_path, literal_key, path_literal, equality_key,
  command_collection, find_predicate, insert_by_name, sort_by_name, find_key, find_index_scan,
  access_of, plan,
}

-- One side is the field, and the other a literal with the key.
abbrev pub Equates : Expression → Expression → List String → IndexKey → Type 0
Equates (path segments) (literal l) field key = (segments ≡ field) × (literal_key l ≡ some key)
Equates _ _ field key = ⊥

-- The expression is a conjunction with an equality of the field and the key.
unfoldable pub Demands : Expression → List String → IndexKey → Type 0
unfolding literal_key
Demands (binary left and_operator right) field key =
    Demands left field key ⊎ Demands right field key
Demands (binary left equal right) field key =
    Equates left right field key ⊎ Equates right left field key
Demands _ field key = ⊥

same_path-eq : (p q : List String) → same_path p q ≡ true → p ≡ q
same_path-eq [] [] h = refl
same_path-eq [] (t ∷ q) h = cc
same_path-eq (s ∷ p) [] h = cc
same_path-eq (s ∷ p) (t ∷ q) h = ground (arith, h, string_key.beq_iff s t, same_path-eq p q)

path_literal-Equates :
    (left right : Expression) (field : List String) (key : IndexKey)
    → path_literal left right field ≡ some key
    → Equates left right field key
unfolding path_literal
path_literal-Equates (path segments) (literal l) field key h =
    elim (Bool-cases (same_path segments field)) [
      | inl yes_same ↦ (same_path-eq segments field yes_same, rw yes_same at h)
      | inr differ ↦ cc (rw differ at h)
    ]
path_literal-Equates left right field key h = ground (arith, h)

or_else-some {ℓ} :
    {A : Type ℓ} (x y : Option A) (a : A) → or_else x y ≡ some a → (x ≡ some a) ⊎ (y ≡ some a)
or_else-some none y a h = inr h
or_else-some (some b) y a h = inl h

equality_key-Demands :
    (e : Expression) (field : List String) (key : IndexKey)
    → equality_key e field ≡ some key
    → Demands e field key
unfolding equality_key Demands
equality_key-Demands (binary left and_operator right) field key h = elim (or_else-some _ _ key h) [
  | inl first ↦ inl (equality_key-Demands left field key first)
  | inr second ↦ inr (equality_key-Demands right field key second)
]
equality_key-Demands (binary left equal right) field key h = elim (or_else-some _ _ key h) [
  | inl first ↦ inl (path_literal-Equates left right field key first)
  | inr second ↦ inr (path_literal-Equates right left field key second)
]
equality_key-Demands e field key h = ground (arith, h)

-- The definition is one of the list.
abbrev pub In : IndexDefinition → List IndexDefinition → Type 0
In d [] = ⊥
In d (e ∷ definitions) = (d ≡ e) ⊎ In d definitions

In-insert_by_name :
    (x d : IndexDefinition) (ds : List IndexDefinition)
    → (In x (insert_by_name d ds) → (x ≡ d) ⊎ In x ds)
      × ((x ≡ d) ⊎ In x ds → In x (insert_by_name d ds))
unfolding insert_by_name
In-insert_by_name x d [] = ((λ h. h), (λ h. h))
In-insert_by_name x d (e ∷ ds) = elim (Bool-cases (str_lt e.name d.name)) [
  | inl below ↦
      let (out, back) = In-insert_by_name x d ds in
      rw below (
        (λ h. elim h [
          | inl here ↦ inr (inl here)
          | inr later ↦ elim (out later) [ inl is ↦ inl is | inr rest ↦ inr (inr rest) ]
        ]),
        (λ h. elim h [
          | inl is ↦ inr (back (inl is))
          | inr rest ↦ elim rest [ inl here ↦ inl here | inr later ↦ inr (back (inr later)) ]
        ]),
      )
  | inr not_below ↦ rw not_below ((λ h. h), (λ h. h))
]

In-sort_by_name :
    (x : IndexDefinition) (ds : List IndexDefinition)
    → (In x (sort_by_name ds) → In x ds) × (In x ds → In x (sort_by_name ds))
unfolding sort_by_name
In-sort_by_name x [] = ((λ h. h), (λ h. h))
In-sort_by_name x (d ∷ ds) =
    let (out, back) = In-insert_by_name x d (sort_by_name ds) in
    let (out', back') = In-sort_by_name x ds in
    (
      (λ h. elim (out h) [ inl is ↦ inl is | inr rest ↦ inr (out' rest) ]),
      (λ h. back (elim h [ inl is ↦ inl is | inr rest ↦ inr (back' rest) ])),
    )

In-filter :
    (p : IndexDefinition → Bool) (x : IndexDefinition) (ds : List IndexDefinition)
    → (In x (filter p ds) → In x ds × (p x ≡ true)) × (In x ds → p x ≡ true → In x (filter p ds))
In-filter p x [] = ((λ h. absurd h), (λ h e. h))
In-filter p x (d ∷ ds) =
    let (out, back) = In-filter p x ds in
    elim (Bool-cases (p d)) [
      | inl kept ↦ rw kept (
        (λ h. elim h [
          | inl is ↦ (inl is, ap p is ∙ kept)
          | inr rest ↦ (inr (out rest).0, (out rest).1)
        ]),
        (λ h e. elim h [ inl is ↦ inl is | inr rest ↦ inr (back rest e) ]),
      )
      | inr dropped ↦ rw dropped (
        (λ h. (inr (out h).0, (out h).1)),
        (λ h e. elim h [
          | inl is ↦ absurd (ground (arith, sym (ap p is ∙ dropped) ∙ e))
          | inr rest ↦ back rest e
        ]),
      )
    ]

-- A definition whose field the predicate demands, or none of those that are given
abbrev Found : Expression → List IndexDefinition → Option (String × IndexKey) → Type 0
Found predicate ds outcome =
    ((d : IndexDefinition) × (key : IndexKey) × In d ds
      × (equality_key predicate d.field ≡ some key)
      × (outcome ≡ some (d.name, key)))
    ⊎ ((outcome ≡ none) × ((d : IndexDefinition) → In d ds → equality_key predicate d.field ≡ none))

find_key-Found :
    (predicate : Expression) (ds : List IndexDefinition)
    → Found predicate ds (find_key predicate ds)
unfolding find_key
find_key-Found predicate [] = inr (refl, λ d h. absurd h)
find_key-Found predicate (d ∷ ds) =
    first (equality_key predicate d.field) refl (find_key-Found predicate ds)
  where
    chosen : Option IndexKey → Option (String × IndexKey)
    chosen o = elim o [ none ↦ find_key predicate ds | some key ↦ some (d.name, key) ]

    first :
        (o : Option IndexKey)
        → equality_key predicate d.field ≡ o
        → Found predicate ds (find_key predicate ds)
        → Found predicate (d ∷ ds) (chosen (equality_key predicate d.field))
    first (some key) e ih = inl (d, key, inl refl, e, ap chosen e)
    first none e ih = elim ih [
      | inl found ↦
          let (d', key, there, demanded, same_outcome) = found in
          inl (d', key, inr there, demanded, ap chosen e ∙ same_outcome)
      | inr missing ↦ inr (
        ap chosen e ∙ missing.0,
        λ d' h. elim h [
          | inl is ↦ ap (λ x. equality_key predicate x.field) is ∙ e
          | inr later ↦ missing.1 d' later
        ],
      )
    ]

candidates : String → List IndexDefinition → List IndexDefinition
candidates collection definitions =
    sort_by_name (filter (λ d. same d.collection collection) definitions)

plan-access :
    (query : Query) (definitions : List IndexDefinition) (collection : String)
    (predicate : Expression)
    → command_collection query.command ≡ some collection
    → find_predicate query.stages ≡ some predicate
    → (plan query definitions).access
      ≡ access_of collection (find_key predicate (candidates collection definitions))
unfolding plan find_index_scan candidates
plan-access query definitions collection predicate reads filters =
    rw (plan, find_index_scan, reads, filters) refl

In-candidates :
    (d : IndexDefinition) (collection : String) (definitions : List IndexDefinition)
    → (In d (candidates collection definitions) → In d definitions × (d.collection ≡ collection))
      × (In d definitions → d.collection ≡ collection → In d (candidates collection definitions))
unfolding candidates
In-candidates d collection definitions =
    let (out, back) = In-sort_by_name d (filter (λ x. same x.collection collection) definitions) in
    let (kept, keep) = In-filter (λ x. same x.collection collection) d definitions in
    let (to, from) = string_key.beq_iff d.collection collection in
    ((λ h. ((kept (out h)).0, to (kept (out h)).1)), (λ h e. back (keep h (from e))))

-- For a command that reads a collection and a query with a filter, the access path is an index of that
-- collection whose field the first filter equates, in a conjunction, with the key that is looked
-- up; or it is a scan of the collection, and then `equality_key` finds no key for the field of any
-- index of the collection.
pub plan-Choice :
    (query : Query) (definitions : List IndexDefinition) (collection : String)
    (predicate : Expression)
    → command_collection query.command ≡ some collection
    → find_predicate query.stages ≡ some predicate
    → ((d : IndexDefinition) × (key : IndexKey) × In d definitions
        × (d.collection ≡ collection)
        × Demands predicate d.field key
        × ((plan query definitions).access ≡ index_scan collection d.name key))
      ⊎ (((plan query definitions).access ≡ collection_scan collection)
          × ((d : IndexDefinition)
              → In d definitions
              → d.collection ≡ collection
              → equality_key predicate d.field ≡ none))
plan-Choice query definitions collection predicate reads filters =
    let access = plan-access query definitions collection predicate reads filters in
    elim (find_key-Found predicate (candidates collection definitions)) [
      | inl found ↦
          let (d, key, there, demanded, outcome) = found in
          let (given, ours) = (In-candidates d collection definitions).0 there in
          inl (
            d,
            key,
            given,
            ours,
            equality_key-Demands predicate d.field key demanded,
            access ∙ ap (access_of collection) outcome,
          )
      | inr missing ↦ inr (
        access ∙ ap (access_of collection) missing.0,
        λ d given ours. missing.1 d ((In-candidates d collection definitions).1 given ours),
      )
    ]
