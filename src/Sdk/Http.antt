-- ===== src/Sdk/Http.antt =====
-- What the client (sdk/go/agentmsg/client.go) takes from net/http. A body is the JSON value that its
-- text stands for.
use agentmsg.Prelude.{ℕ, Bool, Option, String}
use agentmsg.Model.Json.{Json}

-- errors.go, and any other error by its text.
pub data ClientError : Type 0 where
  agent_not_found message_not_found invalid_config : ClientError
  other : String → ClientError

pub data Reply {ℓ} (A : Type ℓ) : Type ℓ where
  ok : A → Reply A
  err : ClientError → Reply A

abbrev pub Call : Type 0 → Type 0 → Type 0
Call S A = S → Reply A × S

abbrev pub give : {S A : Type 0} → Reply A → Call S A
give r s = (r, s)

infixl 5 ◌>>=◌ ◌>>◌
abbrev pub ◌>>=◌ : {S A B : Type 0} → Call S A → (A → Call S B) → Call S B
◌>>=◌ m f s = let (r, s') = m s in elim r [ ok a ↦ f a s' | err e ↦ (err e, s') ]

abbrev pub ◌>>◌ : {S A B : Type 0} → Call S A → Call S B → Call S B
m >> k = m >>= λ _. k

-- `json_content` is the header `Content-Type: application/json`.
pub record Request : Type 0 where
  pub method : String
  pub url : String
  pub authorization : String
  pub json_content : Bool
  pub body : Option Json

-- A body that cannot be read, that is no JSON, or that is.
pub data Body : Type 0 where
  unreadable : Body
  garbled : Body
  json : Json → Body

pub record Response : Type 0 where
  pub status : ℕ
  pub body : Body

-- `http.NewRequestWithContext` and `Client.Do`: the error of either comes back as it is.
pub record Transport : Type 1 where
  pub Store : Type 0
  pub round_trip : Request → Call Store Response
