-- ===== src/Model/Json.antt =====
-- JSON values, such as those of `map[string]any` and `interface{}` that a request fills in, and how
-- encoding/json finds the member for a field: it ignores the case of letters, here the ASCII ones.
use Prim.Native.Char.{code}
use agentmsg.Prelude.{
  ℕ, ◌+◌, ◌&&◌, Bool, true, false, Option, none, some, String, List, [], ◌∷◌, leb, ◌==◌,
  if◌then◌else◌,
}
use agentmsg.Model.Scalars.{Float64}

mutual
  pub data Json : Type 0 where
    null : Json
    bool : Bool → Json
    number : Float64 → Json
    text : String → Json
    array : Items → Json
    object : Members → Json

  pub data Items : Type 0 where
    empty : Items
    item : Json → Items → Items

  pub data Members : Type 0 where
    end : Members
    member : String → Json → Members → Members

abbrev pub lower_code : ℕ → ℕ
lower_code c = if leb b'A' c && leb c b'Z' then c + 32 else c

unfoldable pub lower_codes : String → List ℕ
lower_codes String.[] = []
lower_codes (String.◌∷◌ c s) = lower_code (code c) ∷ lower_codes s

unfoldable pub codes_eq : List ℕ → List ℕ → Bool
codes_eq [] [] = true
codes_eq [] (_ ∷ _) = false
codes_eq (_ ∷ _) [] = false
codes_eq (x ∷ xs) (y ∷ ys) = (x == y) && codes_eq xs ys

-- Does the name of a member fill the field with this name.
unfoldable pub names : String → String → Bool
unfolding lower_codes codes_eq
names field name = codes_eq (lower_codes field) (lower_codes name)

-- The member that fills a field: of several the last.
unfoldable pub find_member : String → Members → Option Json
find_member field end = none
find_member field (member name value rest) =
    let found = find_member field rest in
    elim found [ some v ↦ some v | none ↦ if names field name then some value else none ]

-- An object with these members, in this order.
unfoldable pub members : List (String × Json) → Members
members [] = end
members ((name, value) ∷ rest) = member name value (members rest)
