-- ===== src/Services/Memory/Redis.antt =====
-- The data types of Redis in memory.
use agentmsg.Prelude.{
  ℕ, ◌≡◌, ◌⊎◌, refl, Bool, String, List, [], ◌∷◌, ◌++◌, if◌then◌else◌, ap, arith,
}
use agentmsg.Services.Memory.Faults.{fails, rest, down}
use agentmsg.Exec.{Error, Result, ok, err, Done}
use agentmsg.Services.Redis.{Queue, SortedSet, Channels}

pub record Cells (A : Type 0) : Type 0 where
  pub held : List A
  pub faults : List Bool

module _ {A : Type 0} where
  abbrev pub push : A → Cells A → Done × Cells A
  push x s =
      let t : Cells A = record s { faults = rest s.faults } in
      if fails s.faults then (err down, t) else (ok tt, record t { held = x ∷ s.held })

  pub push_done : (x : A) (s : Cells A) → (push x s).0 ≡ ok tt → (push x s).1.held ≡ x ∷ s.held
  push_done x s h = ground arith

  pub push_atomic :
      (x : A) (s : Cells A) → ((push x s).1.held ≡ s.held) ⊎ ((push x s).1.held ≡ x ∷ s.held)
  push_atomic x s = ground arith

  -- All but the last of `x ∷ xs`, and the last.
  abbrev pub unsnoc : A → List A → List A × A
  unsnoc x [] = ([], x)
  unsnoc x (y ∷ ys) = let (l, z) = unsnoc y ys in (x ∷ l, z)

  pub unsnoc_joined : (x : A) (xs : List A) → x ∷ xs ≡ (unsnoc x xs).0 ++ (unsnoc x xs).1 ∷ []
  unsnoc_joined x [] = refl
  unsnoc_joined x (y ∷ ys) = ap (λ l. x ∷ l) (unsnoc_joined y ys)

  abbrev pub pop_list : List A → List Bool → Result A × Cells A
  pop_list [] faults = (err (Error.external "redis: nil"), record { held = []; faults = faults })
  pop_list (x ∷ xs) faults =
      (ok (unsnoc x xs).1, record { held = (unsnoc x xs).0; faults = faults })

  pub pop_done :
      (xs : List A) (faults : List Bool) (x : A)
      → (pop_list xs faults).0 ≡ ok x
      → xs ≡ (pop_list xs faults).1.held ++ x ∷ []
  pop_done [] faults x h = cc
  pop_done (y ∷ ys) faults x h = let e : (unsnoc y ys).1 ≡ x = cc in rw (← e) (unsnoc_joined y ys)

abbrev pub memory_queue : (A : Type 0) → Queue A
memory_queue A = record {
  Store = Cells A;
  items = λ s. s.held;
  lpush = push;
  rpop = λ s. pop_list s.held s.faults;
  lpush_done = push_done;
  lpush_atomic = push_atomic;
  rpop_done = λ s x h. pop_done s.held s.faults x h;
}

abbrev pub memory_set : (A : Type 0) → SortedSet A
memory_set A = record {
  Store = Cells (ℕ × A);
  members = λ s. s.held;
  zadd = λ n x. push (n, x);
  zadd_done = λ n x. push_done (n, x);
}

abbrev pub memory_channels : Channels
memory_channels = record {
  Store = Cells (String × String);
  sent = λ s. s.held;
  publish = λ c m. push (c, m);
  publish_done = λ c m. push_done (c, m);
  publish_atomic = λ c m. push_atomic (c, m);
}
