-- ===== src/Services/Memory/Hashes.antt =====
-- The hashes of Redis in memory, latest field first.
use mathlib.Core.Path.{subst}
use agentmsg.Prelude.{
  ◌≡◌, ◌⊎◌, inl, inr, refl, sym, ap, not, ◌&&◌, Option, none, some, String, List, [], ◌∷◌, ◌++◌,
  All, All-map, In, In-append_right, In-filter, filter, str_eq, str_eq_iff, str_eq_self, Bool-cases,
  arith, if◌then◌else◌,
}
use agentmsg.Services.Memory.Faults.{fails, rest, down}
use agentmsg.Services.Memory.Redis.{Cells}
use agentmsg.Exec.{ok, err, Done, ok_injective}
use agentmsg.Services.Redis.{Hashes}

-- An entry that holds nothing is a deleted field.
abbrev pub Entry : Type 0 → Type 0
Entry A = String × String × Option A

module _ {A : Type 0} where
  abbrev pub find_field : List (Entry A) → String → String → Option A
  find_field [] j g = none
  find_field ((k, f, x) ∷ l) j g =
      let found = find_field l j g in if str_eq k j && str_eq f g then x else found

  abbrev pub entry_of : String → Option A → List (String × A)
  entry_of f none = []
  entry_of f (some x) = (f, x) ∷ []

  abbrev pub listing : List (Entry A) → String → List (String × A)
  listing [] k = []
  listing ((j, f, x) ∷ l) k =
      let below = listing l k in
      if str_eq j k then entry_of f x ++ filter (λ e. not (str_eq f e.0)) below else below

  abbrev pub write_field : String → String → Option A → Cells (Entry A) → Done × Cells (Entry A)
  write_field k f x s =
      let t : Cells (Entry A) = record s { faults = rest s.faults } in
      if fails s.faults then (err down, t) else (ok tt, record t { held = (k, f, x) ∷ s.held })

  pub write_field_done :
      (k f : String) (x : Option A) (s : Cells (Entry A))
      → (write_field k f x s).0 ≡ ok tt
      → find_field (write_field k f x s).1.held k f ≡ x
  write_field_done k f x s h = ground (arith, str_eq_self k, str_eq_self f)

  pub write_field_atomic :
      (k f : String) (x : Option A) (s : Cells (Entry A)) (j g : String)
      → (find_field (write_field k f x s).1.held j g ≡ find_field s.held j g)
        ⊎ ((j ≡ k) × (g ≡ f) × (find_field (write_field k f x s).1.held j g ≡ x))
  write_field_atomic k f x s j g = elim (Bool-cases (fails s.faults)) [
    | inl fault ↦ inl (ground (arith, fault))
    | inr works ↦ elim (Bool-cases (str_eq k j)) [
      | inr other ↦ inl (ground (arith, works, other))
      | inl same ↦ elim (Bool-cases (str_eq f g)) [
        | inr other ↦ inl (ground (arith, works, same, other))
        | inl same' ↦ inr (
          sym ((str_eq_iff k j).0 same),
          sym ((str_eq_iff f g).0 same'),
          ground (arith, works, same, same'),
        )
      ]
    ]
  ]

  abbrev pub Holds : List (Entry A) → String → String × A → Type 0
  Holds l k e = find_field l k e.0 ≡ some e.1

  -- What an entry shadows is filtered out.
  filter-Holds :
      (l : List (Entry A)) (k f : String) (x : Option A) (es : List (String × A))
      → All (Holds l k) es
      → All (Holds ((k, f, x) ∷ l) k) (filter (λ e. not (str_eq f e.0)) es)
  filter-Holds l k f x [] h = tt
  filter-Holds l k f x (e ∷ es) h = elim (Bool-cases (str_eq f e.0)) [
    | inl same ↦ rw same (filter-Holds l k f x es h.1)
    | inr other ↦
        let kept : Holds ((k, f, x) ∷ l) k e = ground (arith, other, h.0) in
        rw other ((kept, filter-Holds l k f x es h.1))
  ]

  entry_of-Holds :
      (l : List (Entry A)) (k f : String) (x : Option A) (es : List (String × A))
      → All (Holds ((k, f, x) ∷ l) k) es
      → All (Holds ((k, f, x) ∷ l) k) (entry_of f x ++ es)
  entry_of-Holds l k f none es h = h
  entry_of-Holds l k f (some y) es h = (ground (arith, str_eq_self k, str_eq_self f), h)

  pub listing-Holds : (l : List (Entry A)) (k : String) → All (Holds l k) (listing l k)
  listing-Holds [] k = tt
  listing-Holds ((j, f, x) ∷ l) k = elim (Bool-cases (str_eq j k)) [
    | inr other ↦ rw other (
        All-map (λ e (h : Holds l k e). ground (arith, other, h)) (listing l k) (listing-Holds l k))
    | inl same ↦
        let below = filter-Holds l k f x (listing l k) (listing-Holds l k) in
        let named : j ≡ k = (str_eq_iff j k).0 same in
        rw (named, str_eq_self k) (entry_of-Holds l k f x _ below)
  ]

  pub listing_complete :
      (l : List (Entry A)) (k g : String) (y : A)
      → find_field l k g ≡ some y
      → In (g, y) (listing l k)
  listing_complete [] k g y h = cc
  listing_complete ((j, f, x) ∷ l) k g y h = elim (Bool-cases (str_eq j k)) [
    | inr other ↦ rw other (listing_complete l k g y (ground (arith, other, h)))
    | inl same ↦ elim (Bool-cases (str_eq f g)) [
      | inl same' ↦
          let x_some : x ≡ some y = ground (arith, same, same', h) in
          let named : f ≡ g = (str_eq_iff f g).0 same' in rw (same, x_some, named) (inl refl)
      | inr other ↦ rw same (
          In-append_right (entry_of f x) (filter (λ e. not (str_eq f e.0)) (listing l k)) (g, y)
            (In-filter (λ e. not (str_eq f e.0)) (listing l k) (g, y) (ap not other)
              (listing_complete l k g y (ground (arith, same, other, h)))))
    ]
  ]

abbrev pub memory_hashes : (A : Type 0) → Hashes A
memory_hashes A = record {
  Store = Cells (Entry A);
  field = λ s. find_field s.held;
  hset = λ k f x. write_field k f (some x);
  hdel = λ k f. write_field k f none;
  hgetall = λ k s. (ok (listing s.held k), s);
  hset_done = λ k f x. write_field_done k f (some x);
  hset_atomic = λ k f x. write_field_atomic k f (some x);
  hdel_done = λ k f. write_field_done k f none;
  hdel_atomic = λ k f. write_field_atomic k f none;
  field-hgetall = λ k s. refl;
  hgetall_sound = λ k s l h. subst (All (Holds s.held k)) (ok_injective h) (listing-Holds s.held k);
  hgetall_complete =
      λ k s l f x h e. subst (In (f, x)) (ok_injective h) (listing_complete s.held k f x e);
}
