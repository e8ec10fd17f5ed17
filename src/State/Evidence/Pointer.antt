-- ===== src/State/Evidence/Pointer.antt =====
-- JSON pointers written from keys, `~` as `~0` and `/` as `~1`, under the loop of ResolveEvidence
-- in internal/state/plan.go.
use grodt.Prelude.{
  ℕ, true, false, ◌||◌, Option, none, some, List, [], ◌∷◌, ◌++◌, map, ◌≡◌, refl, ap, ◌∙◌, arith,
  ◌==◌, inl, inr, if◌then◌else◌, Bool-cases,
}
use grodt.State.Evidence.{
  Json, Items, Fields, null, bool, number, string, array, object, split, replace_all, escapes_ok,
  unescape, member, element, index_of, child, walk,
}

-- RFC 6901's encoding of one key.
pub escape : List ℕ → List ℕ
escape [] = []
escape (c ∷ cs) =
    let rest = escape cs in
    if c == b'~' then b'~' ∷ b'0' ∷ rest else if c == b'/' then b'~' ∷ b'1' ∷ rest else c ∷ rest

-- The pointer to the keys, less its first `/`.
pub pointer : List ℕ → List (List ℕ) → List ℕ
pointer key [] = escape key
pointer key (next ∷ keys) = escape key ++ (b'/' ∷ pointer next keys)

-- The value under the keys themselves.
pub value_at : List (List ℕ) → Json → Option Json
value_at [] value = some value
value_at (key ∷ keys) (object fields) = elim (member key fields) [
  | none ↦ none
  | some next ↦ value_at keys next
]
value_at (key ∷ keys) (array items) = elim (index_of key) [
  | none ↦ none
  | some i ↦ elim (element i items) [ none ↦ none | some next ↦ value_at keys next ]
]
value_at (key ∷ keys) _ = none

-- The form between the two replacements: only `~` is written as two characters.
tildes : List ℕ → List ℕ
tildes [] = []
tildes (c ∷ cs) = let rest = tildes cs in if c == b'~' then b'~' ∷ b'0' ∷ rest else c ∷ rest

replace_all-miss :
    (a b c x : ℕ) (r : List ℕ)
    → (x == a) ≡ false
    → replace_all a b c (x ∷ r) ≡ x ∷ replace_all a b c r
unfolding replace_all
replace_all-miss a b c x [] h = refl
replace_all-miss a b c x (y ∷ r) h = ground (arith, h)

replace_all-miss_second :
    (a b c x y : ℕ) (r : List ℕ)
    → (y == b) ≡ false
    → replace_all a b c (x ∷ y ∷ r) ≡ x ∷ replace_all a b c (y ∷ r)
unfolding replace_all
replace_all-miss_second a b c x y r h = ground (arith, h)

replace_all-hit : (a b c : ℕ) (r : List ℕ) → replace_all a b c (a ∷ b ∷ r) ≡ c ∷ replace_all a b c r
unfolding replace_all
replace_all-hit a b c r = ground arith

slashes : (key : List ℕ) → replace_all b'~' b'1' b'/' (escape key) ≡ tildes key
unfolding escape tildes
slashes [] = unfold replace_all in refl
slashes (c ∷ cs) = elim (Bool-cases (c == b'~')) [
  | inl tilde ↦ rw tilde (
      replace_all-miss_second b'~' b'1' b'/' b'~' b'0' (escape cs) refl
      ∙ ap (λ (r : List ℕ). b'~' ∷ r) (replace_all-miss b'~' b'1' b'/' b'0' (escape cs) refl)
      ∙ ap (λ (r : List ℕ). b'~' ∷ b'0' ∷ r) (slashes cs))
  | inr other ↦ elim (Bool-cases (c == b'/')) [
    | inl slash ↦
        rw (other, slash)
          (replace_all-hit b'~' b'1' b'/' (escape cs)
            ∙ ap (λ (r : List ℕ). b'/' ∷ r) (slashes cs)
            ∙ ground arith)
    | inr plain ↦
        rw (other, plain)
          (replace_all-miss b'~' b'1' b'/' c (escape cs) other
            ∙ ap (λ (r : List ℕ). c ∷ r) (slashes cs))
  ]
]

back : (key : List ℕ) → replace_all b'~' b'0' b'~' (tildes key) ≡ key
unfolding tildes
back [] = unfold replace_all in refl
back (c ∷ cs) = elim (Bool-cases (c == b'~')) [
  | inl tilde ↦ rw tilde (
      replace_all-hit b'~' b'0' b'~' (tildes cs)
      ∙ ap (λ (r : List ℕ). b'~' ∷ r) (back cs)
      ∙ ground arith)
  | inr other ↦
      rw other
        (replace_all-miss b'~' b'0' b'~' c (tildes cs) other ∙ ap (λ (r : List ℕ). c ∷ r) (back cs))
]

unescape-escape : (key : List ℕ) → unescape (escape key) ≡ key
unfolding unescape
unescape-escape key = ap (replace_all b'~' b'0' b'~') (slashes key) ∙ back key

escapes_ok-plain : (x : ℕ) (r : List ℕ) → (x == b'~') ≡ false → escapes_ok (x ∷ r) ≡ escapes_ok r
unfolding escapes_ok
escapes_ok-plain x [] h = ground (arith, h)
escapes_ok-plain x (y ∷ r) h = ground (arith, h)

escapes_ok-pair :
    (y : ℕ) (r : List ℕ)
    → (y == b'0' || y == b'1') ≡ true
    → escapes_ok (b'~' ∷ y ∷ r) ≡ escapes_ok r
unfolding escapes_ok
escapes_ok-pair y [] h = ground (arith, h)
escapes_ok-pair y (z ∷ r) h = ground (arith, h)

escapes_ok-escape : (key : List ℕ) → escapes_ok (escape key) ≡ true
unfolding escape
escapes_ok-escape [] = unfold escapes_ok in refl
escapes_ok-escape (c ∷ cs) = elim (Bool-cases (c == b'~')) [
  | inl tilde ↦ rw tilde (escapes_ok-pair b'0' (escape cs) refl ∙ escapes_ok-escape cs)
  | inr other ↦ elim (Bool-cases (c == b'/')) [
    | inl slash ↦ rw (other, slash) (escapes_ok-pair b'1' (escape cs) refl ∙ escapes_ok-escape cs)
    | inr plain ↦ rw (other, plain) (escapes_ok-plain c (escape cs) other ∙ escapes_ok-escape cs)
  ]
]

-- An escaped key holds no `/`: the split takes it off whole.
split-escape_last : (key : List ℕ) → split b'/' (escape key) ≡ escape key ∷ []
unfolding split escape
split-escape_last [] = refl
split-escape_last (c ∷ cs) = ground (arith, split-escape_last cs)

split-escape :
    (key rest : List ℕ) → split b'/' (escape key ++ (b'/' ∷ rest)) ≡ escape key ∷ split b'/' rest
unfolding split escape
split-escape [] rest = refl
split-escape (c ∷ cs) rest = ground (arith, split-escape cs rest)

split-pointer :
    (key : List ℕ) (keys : List (List ℕ)) → split b'/' (pointer key keys) ≡ map escape (key ∷ keys)
unfolding pointer
split-pointer key [] = split-escape_last key
split-pointer key (next ∷ keys) =
    split-escape key (pointer next keys)
    ∙ ap (λ (parts : List (List ℕ)). escape key ∷ parts) (split-pointer next keys)

step-ap :
    (f g : Json → Option Json)
    → ((next : Json) → f next ≡ g next)
    → (found : Option Json)
    → (elim found [ none ↦ none | some next ↦ f next ])
      ≡ (elim found [ none ↦ none | some next ↦ g next ])
step-ap f g same none = refl
step-ap f g same (some next) = same next

element-ap :
    (f g : Json → Option Json)
    → ((next : Json) → f next ≡ g next)
    → (items : Items) (at : Option ℕ)
    → (elim (elim at as (λ _. Option Json) [ none ↦ none | some i ↦ element i items ]) [
      | none ↦ none
      | some next ↦ f next
    ])
      ≡ (elim at [
        | none ↦ none
        | some i ↦ elim (element i items) [ none ↦ none | some next ↦ g next ]
      ])
element-ap f g same items none = refl
element-ap f g same items (some i) = step-ap f g same (element i items)

child-escape_object :
    (key : List ℕ) (fields : Fields) → child (escape key) (object fields) ≡ member key fields
unfolding child
child-escape_object key fields = ap (λ (part : List ℕ). member part fields) (unescape-escape key)

child-escape_array :
    (key : List ℕ) (items : Items)
    → child (escape key) (array items)
      ≡ (elim (index_of key) [ none ↦ none | some i ↦ element i items ])
unfolding child
child-escape_array key items =
    ap
      (λ (part : List ℕ). (elim (index_of part) as (λ _. Option Json) [
        | none ↦ none
        | some i ↦ element i items
      ]))
      (unescape-escape key)

walk-escape :
    (keys : List (List ℕ)) (value : Json) → walk (map escape keys) value ≡ value_at keys value
unfolding walk value_at
walk-escape [] value = refl
walk-escape (key ∷ keys) (object fields) =
    rw (escapes_ok-escape key, child-escape_object key fields)
      (step-ap (walk (map escape keys)) (value_at keys) (walk-escape keys) (member key fields))
walk-escape (key ∷ keys) (array items) =
    rw (escapes_ok-escape key, child-escape_array key items)
      (element-ap (walk (map escape keys)) (value_at keys) (walk-escape keys) items (index_of key))
walk-escape (key ∷ keys) null = unfold child in rw (escapes_ok-escape key) refl
walk-escape (key ∷ keys) (bool b) = unfold child in rw (escapes_ok-escape key) refl
walk-escape (key ∷ keys) (number text) = unfold child in rw (escapes_ok-escape key) refl
walk-escape (key ∷ keys) (string text) = unfold child in rw (escapes_ok-escape key) refl

-- Splitting and following the JSON pointer that is written from a non-empty list of keys, with ~
-- and / escaped, gives the value under those keys, or fails where there is none.
pub walk-pointer :
    (key : List ℕ) (keys : List (List ℕ)) (value : Json)
    → walk (split b'/' (pointer key keys)) value ≡ value_at (key ∷ keys) value
walk-pointer key keys value =
    ap (λ (parts : List (List ℕ)). walk parts value) (split-pointer key keys)
    ∙ walk-escape (key ∷ keys) value
