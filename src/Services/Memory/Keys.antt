-- ===== src/Services/Memory/Keys.antt =====
-- String keys and counters in memory, as functions of the time and the key.
use agentmsg.Prelude.{
  ℕ, ◌+◌, ◌*◌, ◌≡◌, ◌⊎◌, refl, Bool, Option, none, some, String, List, [], ltb, is_some, str_eq,
  str_eq_iff, if◌then◌else◌, arith,
}
use agentmsg.Services.Memory.Faults.{fails, rest, down}
use agentmsg.Exec.{Result, ok, err, Done}
use agentmsg.Model.Scalars.{Time}
use agentmsg.Services.Redis.{Keys, Counter, Counters, second, expiring, bump}

pub record KeyCells : Type 0 where
  pub reading : Time → String → Option String
  pub faults : List Bool

abbrev pub no_keys : KeyCells
no_keys = record { reading = λ _ _. none; faults = [] }

abbrev later : KeyCells → KeyCells
later s = record s { faults = rest s.faults }

abbrev pub get_key : String → Time → KeyCells → Result (Option String) × KeyCells
get_key k now s = (if fails s.faults then err down else ok (s.reading now k), later s)

abbrev pub exists_key : String → Time → KeyCells → Result Bool × KeyCells
exists_key k now s = (if fails s.faults then err down else ok (is_some (s.reading now k)), later s)

-- A write of `new` at one key.
abbrev pub write_key : String → (Time → Option String) → KeyCells → Done × KeyCells
write_key k new s =
    if fails s.faults
    then (err down, later s)
    else (ok tt, record (later s) { reading = λ t j. if str_eq k j then new t else s.reading t j })

abbrev pub set_key : String → String → ℕ → Time → KeyCells → Done × KeyCells
set_key k v seconds now = write_key k (expiring v seconds now)

abbrev pub expire_key : String → ℕ → Time → KeyCells → Done × KeyCells
expire_key k seconds now s =
    write_key k (λ t. if ltb t (now + seconds * second) then s.reading now k else none) s

pub get_key_done :
    (k : String) (now : Time) (s : KeyCells) (v : Option String)
    → (get_key k now s).0 ≡ ok v
    → s.reading now k ≡ v
get_key_done k now s v h = ground arith

pub exists_key_done :
    (k : String) (now : Time) (s : KeyCells) (b : Bool)
    → (exists_key k now s).0 ≡ ok b
    → b ≡ is_some (s.reading now k)
exists_key_done k now s b h = ground arith

pub write_key_done :
    (k : String) (new : Time → Option String) (s : KeyCells)
    → (write_key k new s).0 ≡ ok tt
    → (t : Time) (j : String)
    → (write_key k new s).1.reading t j ≡ (if str_eq k j then new t else s.reading t j)
write_key_done k new s h t j = ground arith

pub expire_key_done :
    (k : String) (seconds : ℕ) (now : Time) (s : KeyCells)
    → (expire_key k seconds now s).0 ≡ ok tt
    → (t : Time) (j : String)
    → (expire_key k seconds now s).1.reading t j ≡ (
        if str_eq k j
        then (if ltb t (now + seconds * second) then s.reading now j else none)
        else s.reading t j)
expire_key_done k seconds now s h t j = ground (arith, str_eq_iff k j)

abbrev pub memory_keys : Keys
memory_keys = record {
  Store = KeyCells;
  value = λ s. s.reading;
  get = get_key;
  exists = exists_key;
  set = set_key;
  expire = expire_key;
  del = λ k _. write_key k (λ _. none);
  value-get = λ k now s. refl;
  get_done = get_key_done;
  value-exists = λ k now s. refl;
  exists_done = exists_key_done;
  set_done = λ k v seconds now s h t j _. write_key_done k (expiring v seconds now) s h t j;
  expire_done = λ k seconds now s h t j _. expire_key_done k seconds now s h t j;
  del_done = λ k now s h t j _. write_key_done k (λ _. none) s h t j;
}

pub record CounterCells : Type 0 where
  pub cells : String → Counter
  pub faults : List Bool

abbrev pub no_counters : CounterCells
no_counters = record { cells = λ _. record { n = 0; deadline = none }; faults = [] }

abbrev pub incr_cell : String → Time → CounterCells → Result ℕ × CounterCells
incr_cell k now s =
    let t : CounterCells = record s { faults = rest s.faults } in
    let c : Counter = bump now (s.cells k) in
    if fails s.faults
    then (err down, t)
    else (ok c.n, record t { cells = λ j. if str_eq k j then c else s.cells j })

abbrev pub expire_cell : String → ℕ → Time → CounterCells → Done × CounterCells
expire_cell k seconds now s =
    let t : CounterCells = record s { faults = rest s.faults } in
    let c : Counter = record (s.cells k) { deadline = some (now + seconds * second) } in
    if fails s.faults
    then (err down, t)
    else (ok tt, record t { cells = λ j. if str_eq k j then c else s.cells j })

pub incr_cell_done :
    (k : String) (now : Time) (s : CounterCells) (n : ℕ)
    → (incr_cell k now s).0 ≡ ok n
    → (n ≡ (bump now (s.cells k)).n)
      × ((j : String)
          → (incr_cell k now s).1.cells j
            ≡ (if str_eq k j then bump now (s.cells k) else s.cells j))
incr_cell_done k now s n h = (ground arith, λ j. ground arith)

pub expire_cell_done :
    (k : String) (seconds : ℕ) (now : Time) (s : CounterCells)
    → (expire_cell k seconds now s).0 ≡ ok tt
    → (j : String)
    → (expire_cell k seconds now s).1.cells j ≡ (
        if str_eq k j
        then record (s.cells k) { deadline = some (now + seconds * second) }
        else s.cells j)
expire_cell_done k seconds now s h j = ground arith

pub expire_cell_atomic :
    (k : String) (seconds : ℕ) (now : Time) (s : CounterCells) (j : String)
    → ((expire_cell k seconds now s).1.cells j ≡ s.cells j)
      ⊎ ((expire_cell k seconds now s).1.cells j ≡ (
          if str_eq k j
          then record (s.cells k) { deadline = some (now + seconds * second) }
          else s.cells j))
expire_cell_atomic k seconds now s j = ground arith

abbrev pub memory_counters : Counters
memory_counters = record {
  Store = CounterCells;
  cell = λ s. s.cells;
  incr = incr_cell;
  expire = expire_cell;
  incr_done = incr_cell_done;
  expire_done = expire_cell_done;
  expire_atomic = expire_cell_atomic;
}
