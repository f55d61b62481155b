-- ===== src/Services/Redis.antt =====
-- Redis, as internal/repository/redis.go calls it. Lists, sorted sets, channels and string keys
-- have separate states here, since the program uses each key with one of these types only. A call
-- that reports an error may have been carried out all the same, when its reply was lost.
use agentmsg.Prelude.{
  ℕ, ◌+◌, ◌*◌, ◌≤◌, ◌≡◌, ◌⊎◌, Bool, true, String, Option, none, some, List, [], ◌∷◌, ◌++◌, true,
  ltb, ◌==◌, All, In, str_eq, is_some, if◌then◌else◌,
}
use agentmsg.Exec.{Result, ok, Done}
use agentmsg.Model.Scalars.{Time}

-- A list key, as a queue: `LPUSH` adds at the left end, `RPOP` takes from the right end. `rpop` on
-- an empty list is the error `redis.Nil`.
pub record Queue (Item : Type 0) : Type 1 where
  pub Store : Type 0
  pub items : Store → List Item
  pub lpush : Item → Store → Done × Store
  pub rpop : Store → Result Item × Store
  pub lpush_done :
      (x : Item) (s : Store) → (lpush x s).0 ≡ ok tt → items (lpush x s).1 ≡ x ∷ items s
  pub lpush_atomic :
      (x : Item) (s : Store) → (items (lpush x s).1 ≡ items s) ⊎ (items (lpush x s).1 ≡ x ∷ items s)
  pub rpop_done : (s : Store) (x : Item) → (rpop s).0 ≡ ok x → items s ≡ items (rpop s).1 ++ x ∷ []

-- The members that a sorted set was given, with their scores, latest first.
pub record SortedSet (Item : Type 0) : Type 1 where
  pub Store : Type 0
  pub members : Store → List (ℕ × Item)
  pub zadd : ℕ → Item → Store → Done × Store
  pub zadd_done :
      (n : ℕ) (x : Item) (s : Store)
      → (zadd n x s).0 ≡ ok tt
      → members (zadd n x s).1 ≡ (n, x) ∷ members s

-- Hashes. `field s k f` is what `HGET k f` gives. `hgetall` gives the fields in any order.
pub record Hashes (Item : Type 0) : Type 1 where
  pub Store : Type 0
  pub field : Store → String → String → Option Item
  pub hset : String → String → Item → Store → Done × Store
  pub hdel : String → String → Store → Done × Store
  pub hgetall : String → Store → Result (List (String × Item)) × Store
  pub hset_done :
      (k f : String) (x : Item) (s : Store)
      → (hset k f x s).0 ≡ ok tt
      → field (hset k f x s).1 k f ≡ some x
  pub hset_atomic :
      (k f : String) (x : Item) (s : Store) (j g : String)
      → (field (hset k f x s).1 j g ≡ field s j g)
        ⊎ ((j ≡ k) × (g ≡ f) × (field (hset k f x s).1 j g ≡ some x))
  pub hdel_done :
      (k f : String) (s : Store) → (hdel k f s).0 ≡ ok tt → field (hdel k f s).1 k f ≡ none
  pub hdel_atomic :
      (k f : String) (s : Store) (j g : String)
      → (field (hdel k f s).1 j g ≡ field s j g)
        ⊎ ((j ≡ k) × (g ≡ f) × (field (hdel k f s).1 j g ≡ none))
  pub field-hgetall : (k : String) (s : Store) → field (hgetall k s).1 ≡ field s
  pub hgetall_sound :
      (k : String) (s : Store) (l : List (String × Item))
      → (hgetall k s).0 ≡ ok l
      → All (λ e. field s k e.0 ≡ some e.1) l
  pub hgetall_complete :
      (k : String) (s : Store) (l : List (String × Item)) (f : String) (x : Item)
      → (hgetall k s).0 ≡ ok l
      → field s k f ≡ some x
      → In (f, x) l

-- `PUBLISH`. `sent` is what the server has passed to its subscribers so far, latest first.
pub record Channels : Type 1 where
  pub Store : Type 0
  pub sent : Store → List (String × String)
  pub publish : String → String → Store → Done × Store
  pub publish_done :
      (c m : String) (s : Store)
      → (publish c m s).0 ≡ ok tt
      → sent (publish c m s).1 ≡ (c, m) ∷ sent s
  pub publish_atomic :
      (c m : String) (s : Store)
      → (sent (publish c m s).1 ≡ sent s) ⊎ (sent (publish c m s).1 ≡ (c, m) ∷ sent s)

-- Nanoseconds in a second.
abbrev pub second : ℕ
second = 1_000_000_000

-- A value written at `now` with `EX seconds`, read at `t`; 0 seconds is no expiry.
abbrev pub expiring : String → ℕ → Time → Time → Option String
expiring v seconds now t =
    if seconds == 0 then some v else if ltb t (now + seconds * second) then some v else none

-- String keys. `value s t k` is what `GET k` gives at time `t` if nothing is written until then.
pub record Keys : Type 1 where
  pub Store : Type 0
  pub value : Store → Time → String → Option String
  -- `GET`; `none` is the answer that there is no such key, which go-redis reports as `redis.Nil`.
  pub get : String → Time → Store → Result (Option String) × Store
  pub exists : String → Time → Store → Result Bool × Store
  -- `SET key value EX seconds`, without `EX` for 0.
  pub set : String → String → ℕ → Time → Store → Done × Store
  -- `EXPIRE key seconds`, which deletes the key for 0.
  pub expire : String → ℕ → Time → Store → Done × Store
  pub del : String → Time → Store → Done × Store
  pub value-get : (k : String) (now : Time) (s : Store) → value (get k now s).1 ≡ value s
  pub get_done :
      (k : String) (now : Time) (s : Store) (v : Option String)
      → (get k now s).0 ≡ ok v
      → value s now k ≡ v
  pub value-exists : (k : String) (now : Time) (s : Store) → value (exists k now s).1 ≡ value s
  pub exists_done :
      (k : String) (now : Time) (s : Store) (b : Bool)
      → (exists k now s).0 ≡ ok b
      → b ≡ is_some (value s now k)
  pub set_done :
      (k v : String) (seconds : ℕ) (now : Time) (s : Store)
      → (set k v seconds now s).0 ≡ ok tt
      → (t : Time) (j : String) → now ≤ t
      → value (set k v seconds now s).1 t j
        ≡ (if str_eq k j then expiring v seconds now t else value s t j)
  pub expire_done :
      (k : String) (seconds : ℕ) (now : Time) (s : Store)
      → (expire k seconds now s).0 ≡ ok tt
      → (t : Time) (j : String) → now ≤ t
      → value (expire k seconds now s).1 t j ≡ (
          if str_eq k j
          then (if ltb t (now + seconds * second) then value s now j else none)
          else value s t j)
  pub del_done :
      (k : String) (now : Time) (s : Store)
      → (del k now s).0 ≡ ok tt
      → (t : Time) (j : String) → now ≤ t
      → value (del k now s).1 t j ≡ (if str_eq k j then none else value s t j)

-- A counter and when it expires; a missing key is 0 with no deadline.
pub record Counter : Type 0 where
  pub n : ℕ
  pub deadline : Option Time

abbrev pub is_alive : Time → Counter → Bool
is_alive now c = elim c.deadline [ none ↦ true | some t ↦ ltb now t ]

-- `INCR` at `now`: a counter that has expired starts again, with no deadline.
abbrev pub bump : Time → Counter → Counter
bump now c = if is_alive now c then record c { n = c.n + 1 } else record { n = 1; deadline = none }

-- Keys that only `INCR` and `EXPIRE` write.
pub record Counters : Type 1 where
  pub Store : Type 0
  pub cell : Store → String → Counter
  pub incr : String → Time → Store → Result ℕ × Store
  pub expire : String → ℕ → Time → Store → Done × Store
  pub incr_done :
      (k : String) (now : Time) (s : Store) (n : ℕ)
      → (incr k now s).0 ≡ ok n
      → (n ≡ (bump now (cell s k)).n)
        × ((j : String)
            → cell (incr k now s).1 j ≡ (if str_eq k j then bump now (cell s k) else cell s j))
  pub expire_done :
      (k : String) (seconds : ℕ) (now : Time) (s : Store)
      → (expire k seconds now s).0 ≡ ok tt
      → (j : String)
      → cell (expire k seconds now s).1 j ≡ (
          if str_eq k j
          then record (cell s k) { deadline = some (now + seconds * second) }
          else cell s j)
  pub expire_atomic :
      (k : String) (seconds : ℕ) (now : Time) (s : Store) (j : String)
      → (cell (expire k seconds now s).1 j ≡ cell s j)
        ⊎ (cell (expire k seconds now s).1 j ≡ (
            if str_eq k j
            then record (cell s k) { deadline = some (now + seconds * second) }
            else cell s j))
