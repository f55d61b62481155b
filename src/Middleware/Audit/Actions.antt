-- ===== src/Middleware/Audit/Actions.antt =====
-- What an audit entry says was done, of internal/middleware/middleware.go.
use Prim.Native.Char.{Char, code}
use Prim.Native.String.{◌++◌ as str_append}
use agentmsg.Prelude.{Bool, ◌||◌, Option, none, String, List, [], ◌∷◌, str_eq, ◌==◌, if◌then◌else◌}
use agentmsg.Model.Scalars.{Uuid}
use agentmsg.Services.World.{Services}

unfoldable pub is_audit_method : String → Bool
is_audit_method method =
    str_eq method "POST" || str_eq method "PUT" || str_eq method "PATCH" || str_eq method "DELETE"

-- `strings.Trim(s, "/")`
unfoldable pub trim_left : String → String
trim_left String.[] = ""
trim_left (String.◌∷◌ c s) =
    let rest = trim_left s in if code c == b'/' then rest else String.◌∷◌ c s

abbrev pub join_right : Char → String → String
join_right c String.[] = if code c == b'/' then "" else String.◌∷◌ c ""
join_right c (String.◌∷◌ d s) = String.◌∷◌ c (String.◌∷◌ d s)

unfoldable pub trim_right : String → String
trim_right String.[] = ""
trim_right (String.◌∷◌ c s) = join_right c (trim_right s)

abbrev pub push_part : Char → List String → List String
push_part c [] = String.◌∷◌ c "" ∷ []
push_part c (p ∷ ps) = String.◌∷◌ c p ∷ ps

-- `strings.Split(s, "/")`
unfoldable pub split_path : String → List String
split_path String.[] = "" ∷ []
split_path (String.◌∷◌ c s) =
    let parts = split_path s in if code c == b'/' then "" ∷ parts else push_part c parts

-- `strings.HasSuffix(s, suffix)`
unfoldable pub has_suffix : String → String → Bool
has_suffix String.[] suffix = str_eq "" suffix
has_suffix (String.◌∷◌ c s) suffix = str_eq (String.◌∷◌ c s) suffix || has_suffix s suffix

unfoldable pub part_of : List String → String
part_of [] = "unknown"
part_of (a ∷ []) = a
part_of (a ∷ b ∷ []) = b
part_of (a ∷ b ∷ c ∷ rest) = c

unfoldable pub audit_resource_type : String → String
unfolding trim_left trim_right split_path part_of
audit_resource_type path = part_of (split_path (trim_right (trim_left path)))

unfoldable pub audit_action : String → String → String
audit_action method path =
    let resource = audit_resource_type path in
    if str_eq method "POST"
    then (if has_suffix path "/ack"
        then str_append resource ".ack"
        else str_append resource ".create")
    else if str_eq method "PUT" || str_eq method "PATCH"
    then str_append resource ".update"
    else if str_eq method "DELETE"
    then str_append resource ".delete"
    else str_append resource ".access"

module _ ⦃sv : Services⦄ where
  unfoldable pub parse_optional_uuid : String → Option Uuid
  parse_optional_uuid value = if str_eq value "" then none else sv.uuids.parse value
