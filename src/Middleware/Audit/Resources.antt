-- ===== src/Middleware/Audit/Resources.antt =====
-- The resource and the action that an audit entry names for a route of the API.
use Prim.Native.Char.{Char, code}
use Prim.Native.String.{◌++◌ as str_append}
use agentmsg.Prelude.{
  ◌≡◌, refl, ap, ◌∙◌, Bool, true, false, inl, inr, ◌&&◌, not, String, List, [], ◌∷◌, ◌==◌,
  Bool-cases, if◌then◌else◌, arith,
}
use agentmsg.Middleware.Audit.Actions.{
  audit_resource_type, audit_action, trim_left, trim_right, split_path, part_of, join_right,
  push_part, has_suffix,
}

-- The characters of one text, then those of another.
abbrev pub followed : String → String → String
followed String.[] t = t
followed (String.◌∷◌ c s) t = String.◌∷◌ c (followed s t)

-- A part of a path holds no slash.
abbrev pub has_no_slash : String → Bool
has_no_slash String.[] = true
has_no_slash (String.◌∷◌ c s) = not (code c == b'/') && has_no_slash s

-- Nothing, or a text that starts with a slash.
abbrev pub ends_part : String → Bool
ends_part String.[] = true
ends_part (String.◌∷◌ c s) = code c == b'/'

join_right_other :
    (c : Char) (s : String) → (code c == b'/') ≡ false → join_right c s ≡ String.◌∷◌ c s
join_right_other c String.[] h = ground (arith, h)
join_right_other c (String.◌∷◌ d s) h = refl

join_right-ends_part :
    (c : Char) (s : String) → (code c == b'/') ≡ true → ends_part (join_right c s) ≡ true
join_right-ends_part c String.[] h = rw h refl
join_right-ends_part c (String.◌∷◌ d s) h = h

trim_right-part :
    (r rest : String)
    → has_no_slash r ≡ true
    → trim_right (followed r rest) ≡ followed r (trim_right rest)
unfolding trim_right
trim_right-part String.[] rest h = refl
trim_right-part (String.◌∷◌ c r) rest h = elim (Bool-cases (code c == b'/')) [
  | inl slash ↦ absurd (ground (arith, slash, h))
  | inr other ↦
      rw (trim_right-part r rest (ground (arith, other, h)))
        (join_right_other c (followed r (trim_right rest)) other)
]

-- Nothing is cut before a text of which something is left.
trim_right-followed :
    (p s t : String) (d : Char)
    → trim_right s ≡ String.◌∷◌ d t
    → trim_right (followed p s) ≡ followed p (String.◌∷◌ d t)
unfolding trim_right
trim_right-followed String.[] s t d h = h
trim_right-followed (String.◌∷◌ x String.[]) s t d h = ap (join_right x) h
trim_right-followed (String.◌∷◌ x (String.◌∷◌ y p)) s t d h =
    ap (join_right x) (trim_right-followed (String.◌∷◌ y p) s t d h)

ends_part-trim_right : (rest : String) → ends_part rest ≡ true → ends_part (trim_right rest) ≡ true
unfolding trim_right
ends_part-trim_right String.[] h = refl
ends_part-trim_right (String.◌∷◌ c s) h = join_right-ends_part c (trim_right s) h

split_path-part :
    (r rest : String)
    → has_no_slash r ≡ true
    → ends_part rest ≡ true
    → (ps : List String) × (split_path (followed r rest) ≡ r ∷ ps)
unfolding split_path
split_path-part String.[] String.[] h k = ([], refl)
split_path-part String.[] (String.◌∷◌ c s) h k = (split_path s, ground (arith, k))
split_path-part (String.◌∷◌ c r) rest h k = elim (Bool-cases (code c == b'/')) [
  | inl slash ↦ absurd (ground (arith, slash, h))
  | inr other ↦
      let (ps, parts) = split_path-part r rest (ground (arith, other, h)) k in
      (ps, rw other (ap (push_part c) parts))
]

audit_resource_type-route :
    (c : Char) (r rest : String)
    → has_no_slash (String.◌∷◌ c r) ≡ true
    → ends_part rest ≡ true
    → audit_resource_type (followed "/api/v1/" (followed (String.◌∷◌ c r) rest)) ≡ String.◌∷◌ c r
unfolding audit_resource_type trim_left part_of trim_right split_path
audit_resource_type-route c r rest h k =
    let (ps, parts) =
      split_path-part (String.◌∷◌ c r) (trim_right rest) h (ends_part-trim_right rest k) in
    let trimmed : trim_right (followed "api/v1/" (followed (String.◌∷◌ c r) rest))
        ≡ followed "api/v1/" (followed (String.◌∷◌ c r) (trim_right rest)) =
      trim_right-followed "api/v1/" (followed (String.◌∷◌ c r) rest) _ c
        (trim_right-part (String.◌∷◌ c r) rest h) in
    ap (λ s. part_of (split_path s)) trimmed ∙ ap (λ ps. part_of ("api" ∷ "v1" ∷ ps)) parts

-- For the path of a route of the API, whose resource is a part that is not empty: an entry of the
-- resource's deletion and of its changes names the resource, and so does one of a POST, which is an
-- acknowledgement exactly if the path ends in /ack and a creation otherwise.
pub audit_action-route :
    (c : Char) (r rest : String)
    → has_no_slash (String.◌∷◌ c r) ≡ true
    → ends_part rest ≡ true
    → let resource = String.◌∷◌ c r in
      let path = followed "/api/v1/" (followed resource rest) in
      (audit_resource_type path ≡ resource)
      × (audit_action "DELETE" path ≡ str_append resource ".delete")
      × (audit_action "PUT" path ≡ str_append resource ".update")
      × (audit_action "PATCH" path ≡ str_append resource ".update")
      × (audit_action "POST" path ≡ (
          if has_suffix path "/ack"
          then str_append resource ".ack"
          else str_append resource ".create"))
unfolding audit_action
audit_action-route c r rest h k =
    let e = audit_resource_type-route c r rest h k in
    (
      e,
      ap (λ s. str_append s ".delete") e,
      ap (λ s. str_append s ".update") e,
      ap (λ s. str_append s ".update") e,
      ap
          (λ s.
            if has_suffix (followed "/api/v1/" (followed (String.◌∷◌ c r) rest)) "/ack"
            then str_append s ".ack"
            else str_append s ".create")
          e,
    )
