-- ===== src/State/Evidence.antt =====
-- ResolveEvidence of internal/state/plan.go: a reference into a partition's current value, by a JSON
-- pointer. `decode` is encoding/json's decoder (with UseNumber) on the text of a partition; a text is
-- read by its characters, and a pointer's delimiters are ASCII.
pub mod Pointer
use Prim.Native.Char.{code}
use Prim.Native.String.{len}
use text.Mathlib.Text.{◌==◌ as str_eq}
use grodt.Prelude.{
  ℕ, zero, suc, ◌+◌, ◌-◌, ◌*◌, String, Bool, true, false, not, ◌&&◌, ◌||◌, Option, none, some, List,
  [], ◌∷◌, all, any, ltb, leb, ◌==◌, is_empty, is_nil, if◌then◌else◌,
}
use grodt.State.Types.{EvidenceReference, Partition}
use grodt.State.Store.{Store}

-- `any` as the decoder fills it; a number keeps its text.
mutual
  pub data Json : Type 0 where
    null : Json
    bool : Bool → Json
    number : String → Json
    string : String → Json
    array : Items → Json
    object : Fields → Json

  pub data Items : Type 0 where
    nil : Items
    cons : Json → Items → Items

  pub data Fields : Type 0 where
    end : Fields
    field : String → Json → Fields → Fields

abbrev pub codes : String → List ℕ
codes String.[] = []
codes (String.◌∷◌ c cs) = code c ∷ codes cs

abbrev pub same_codes : List ℕ → List ℕ → Bool
same_codes [] [] = true
same_codes [] (y ∷ ys) = false
same_codes (x ∷ xs) [] = false
same_codes (x ∷ xs) (y ∷ ys) = x == y && same_codes xs ys

-- strings.Split(text, "/"): `prepend` puts a character before the first part.
abbrev pub prepend : ℕ → List (List ℕ) → List (List ℕ)
prepend c [] = (c ∷ []) ∷ []
prepend c (part ∷ parts) = (c ∷ part) ∷ parts

unfoldable pub split : ℕ → List ℕ → List (List ℕ)
split sep [] = [] ∷ []
split sep (c ∷ cs) = let rest = split sep cs in if c == sep then [] ∷ rest else prepend c rest

-- strings.ReplaceAll of the two characters `a b` by `c`.
unfoldable pub replace_all : ℕ → ℕ → ℕ → List ℕ → List ℕ
replace_all a b c [] = []
replace_all a b c (x ∷ []) = x ∷ []
replace_all a b c (x ∷ y ∷ r) =
    let hit = c ∷ replace_all a b c r in
    let miss = x ∷ replace_all a b c (y ∷ r) in if x == a && y == b then hit else miss

-- Each `~` of a part is followed by 0 or 1.
unfoldable pub escapes_ok : List ℕ → Bool
escapes_ok [] = true
escapes_ok (x ∷ []) = not (x == b'~')
escapes_ok (x ∷ y ∷ r) = (not (x == b'~') || y == b'0' || y == b'1') && escapes_ok (y ∷ r)

unfoldable pub unescape : List ℕ → List ℕ
unfolding replace_all
unescape part = replace_all b'~' b'0' b'~' (replace_all b'~' b'1' b'/' part)

-- The value under the last field of that name: a decoded map keeps the last.
unfoldable pub member : List ℕ → Fields → Option Json
member key end = none
member key (field name value fields) =
    let rest = member key fields in
    elim rest [
      | some found ↦ some found
      | none ↦ if same_codes (codes name) key then some value else none
    ]

unfoldable pub element : ℕ → Items → Option Json
element n nil = none
element zero (cons x items) = some x
element (suc n) (cons x items) = element n items

-- strconv.Atoi of a part that strconv.Itoa prints so: decimal digits with no needless zero. Larger
-- numbers than an int holds are past the end of every array.
abbrev pub is_digit : ℕ → Bool
is_digit c = leb b'0' c && leb c b'9'

unfoldable pub digits_value : ℕ → List ℕ → ℕ
digits_value n [] = n
digits_value n (c ∷ cs) = digits_value (n * 10 + (c - b'0')) cs

unfoldable pub index_of : List ℕ → Option ℕ
unfolding digits_value
index_of [] = none
index_of (c ∷ cs) =
    if all is_digit (c ∷ cs) && (not (c == b'0') || is_nil cs)
    then some (digits_value 0 (c ∷ cs))
    else none

-- One part of the pointer: `none` is an error.
unfoldable pub child : List ℕ → Json → Option Json
unfolding unescape member element index_of
child part (object fields) = member (unescape part) fields
child part (array items) = elim (index_of (unescape part)) [
  | none ↦ none
  | some i ↦ element i items
]
child part _ = none

-- The loop over the parts.
unfoldable pub walk : List (List ℕ) → Json → Option Json
unfolding escapes_ok child
walk [] value = some value
walk (part ∷ parts) value =
    if escapes_ok part
    then (elim (child part value) [ none ↦ none | some next ↦ walk parts next ])
    else none

-- `ref.Path`: the whole value if empty.
unfoldable pub follow : String → Json → Option Json
unfolding split walk
follow path value = elim (codes path) [
  | [] ↦ some value
  | c ∷ cs ↦ if not (c == b'/') || ltb 256 (len path) then none else walk (split b'/' cs) value
]

-- `p, ok := knowledge[name]`
unfoldable pub partition_at : String → List (String × Partition) → Option Partition
partition_at name [] = none
partition_at name ((n, p) ∷ knowledge) =
    if str_eq n name then some p else partition_at name knowledge

unfoldable pub resolve_evidence : (String → Option Json) → Store → EvidenceReference → Option Json
unfolding follow partition_at
resolve_evidence decode s ref = elim (partition_at ref.partition s.knowledge) [
  | none ↦ none
  | some p ↦
      if p.metadata.stale || not (p.metadata.version == ref.version)
      then none
      else (elim (decode p.value) [ none ↦ none | some value ↦ follow ref.path value ])
]
