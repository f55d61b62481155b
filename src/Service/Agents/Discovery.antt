-- ===== src/Service/Agents/Discovery.antt =====
-- Discovery by capability, and the statistics of a tenant's agents.
use agentmsg.Prelude.{
  ℕ, ◌+◌, ◌/◌, ◌≤◌, ◌≡◌, inl, inr, refl, Bool, true, false, ◌&&◌, any, none, some, pos, String,
  List, [], ◌∷◌, map, All, All-map, In, length, filter, str_eq, str_eq_iff, ◌==◌, Bool-cases, arith,
}
use agentmsg.Exec.{ok, ok_injective, Result-cases}
use agentmsg.Model.Scalars.{Uuid, Time}
use agentmsg.Model.Agent.{Agent, AgentStatus, AgentStats, Capability, is_online}
use agentmsg.Services.Redis.{second}
use agentmsg.Services.Table.{Query, descending}
use agentmsg.Services.World.{AgentRow, Services, World}
use agentmsg.Repository.Agents.{is_live}
use agentmsg.Repository.Agents
use agentmsg.Service.Agents.{
  AgentService, matches, filter_matches, tally, tally_all, stats_of, query_by_capabilities,
  get_stats, list_by_tenant,
}

-- One of the wanted names and a capability of the agent agree but for the case of letters.
abbrev pub Offers : (String → String) → List String → Agent → Type 0
Offers lower wanted a =
    (c : Capability) × (r : String) × In c a.capabilities × In r wanted × (lower r ≡ lower c.kind)

any-In :
    {A : Type 0} (p : A → Bool) (xs : List A) → any p xs ≡ true → (x : A) × In x xs × (p x ≡ true)
any-In p [] h = cc
any-In p (x ∷ xs) h = elim (Bool-cases (p x)) [
  | inl hit ↦ (x, inl refl, hit)
  | inr miss ↦ let (y, place, hit) = any-In p xs (ground (arith, miss, h)) in (y, inr place, hit)
]

matches-Offers :
    (lower : String → String) (wanted : List String) (a : Agent)
    → matches lower wanted a ≡ true
    → Offers lower wanted a
unfolding matches
matches-Offers lower wanted a h =
    let (c, has, hit) =
      any-In (λ (c : Capability). any (λ r. str_eq (lower r) (lower c.kind)) wanted) a.capabilities
        h in
    let (r, asked, same) = any-In (λ r. str_eq (lower r) (lower c.kind)) wanted hit in
    (c, r, has, asked, (str_eq_iff (lower r) (lower c.kind)).0 same)

All-filter :
    {A : Type 0} (P Q : A → Type 0) (p : A → Bool) (xs : List A)
    → ((x : A) → p x ≡ true → P x → Q x)
    → All P xs
    → All Q (filter p xs)
All-filter P Q p [] k h = tt
All-filter P Q p (x ∷ xs) k h = elim (Bool-cases (p x)) [
  | inl hit ↦ rw hit (k x hit h.0, All-filter P Q p xs k h.1)
  | inr miss ↦ rw miss (All-filter P Q p xs k h.1)
]

-- A live row of the tenant, online.
abbrev discoverable : Uuid → AgentRow → Bool
discoverable tenant r = (r.tenant_id == tenant) && (is_live r && is_online r.status)

All-map_agent :
    (P : Agent → Type 0) (rows : List AgentRow)
    → All (λ r. P r.agent) rows
    → All P (map (λ (r : AgentRow). r.agent) rows)
All-map_agent P [] h = tt
All-map_agent P (r ∷ rows) h = (h.0, All-map_agent P rows h.1)

-- The agent of a row that a client of the tenant may discover.
abbrev pub IsFound : Uuid → List AgentRow → Agent → Type 0
IsFound tenant rows a = (r : AgentRow) × In r rows × (discoverable tenant r ≡ true) × (r.agent ≡ a)

module _ ⦃sv : Services⦄ (s : AgentService) where
  listed :
      (tenant : Uuid) (wanted : List String) (w : World sv) (agents : List Agent)
      → (Agents.query_by_capabilities tenant wanted w).0 ≡ ok agents
      → All (IsFound tenant (sv.agents.rows w.agents)) agents
  unfolding Agents.query_by_capabilities
  listed tenant wanted w agents h =
      let q : Query AgentRow = record {
        wanted = discoverable tenant;
        order = descending (λ r. r.created_at);
        limit = some (pos 50);
        offset = none;
      } in
      elim (Result-cases (sv.agents.select q w.agents).0) [
        | inr (x, failed) ↦ ground (arith, failed)
        | inl (rows, given) ↦
            let (hits, _, _) = sv.agents.select_found q w.agents rows given in
            let e : map (λ (r : AgentRow). r.agent) rows ≡ agents =
              ok_injective (ground (arith, given)) in
            rw (← e)
              (All-map_agent _ rows (All-map (λ r (hit, place). (r, place, hit, refl)) rows hits))
      ]

  -- Discovery returns live agents of the tenant that are online, and where capabilities were asked
  -- for, agents that have one of them.
  pub query_by_capabilities-Offers :
      (lower : String → String) (tenant : Uuid) (c : String) (cs : List String) (w : World sv)
      (agents : List Agent)
      → (query_by_capabilities s lower tenant (c ∷ cs) w).0 ≡ ok agents
      → All (λ a. IsFound tenant (sv.agents.rows w.agents) a × Offers lower (c ∷ cs) a) agents
  unfolding query_by_capabilities filter_matches
  query_by_capabilities-Offers lower tenant c cs w agents h =
      elim (Result-cases (Agents.query_by_capabilities tenant (c ∷ cs) w).0) [
        | inr (x, failed) ↦ ground (arith, failed)
        | inl (found, given) ↦
            let e : filter (matches lower (c ∷ cs)) found ≡ agents =
              ok_injective (ground (arith, given)) in
            rw (← e) (
              All-filter _ _ (matches lower (c ∷ cs)) found
                (λ a hit known. (known, matches-Offers lower (c ∷ cs) a hit))
                (listed tenant (c ∷ cs) w found given))
      ]

-- The agents with a status that has a counter.
abbrev pub has_counter : AgentStatus → Bool
has_counter AgentStatus.unset = false
has_counter (AgentStatus.other _) = false
has_counter _ = true

abbrev pub counted : AgentStats → ℕ
counted s = s.online + s.away + s.busy + s.offline

tally_all-counted :
    (agents : List Agent) (s : AgentStats)
    → (counted (tally_all agents s)
        ≡ counted s + length (filter (λ a. has_counter a.status) agents))
      × ((tally_all agents s).online ≡ s.online + length (filter (λ a. is_online a.status) agents))
      × ((tally_all agents s).total ≡ s.total)
unfolding tally_all tally
tally_all-counted [] s = ground arith
tally_all-counted (a ∷ rest) s = ground (arith, tally_all-counted rest (tally a.status s))

length-filter : {A : Type 0} (p : A → Bool) (xs : List A) → length (filter p xs) ≤ length xs
length-filter p [] = omega arith
length-filter p (x ∷ xs) = ground (arith, length-filter p xs)

-- What the statistics say of the agents that they were taken from.
pub record Reflects (agents : List Agent) (s : AgentStats) : Type 0 where
  pub total : s.total ≡ length agents
  pub online : s.online ≡ length (filter (λ a. is_online a.status) agents)
  pub counts : counted s ≡ length (filter (λ a. has_counter a.status) agents)
  pub within : counted s ≤ s.total

stats_of-Reflects : (now : Time) (agents : List Agent) → Reflects agents (stats_of now agents)
unfolding stats_of
stats_of-Reflects now agents =
    let start : AgentStats = record {
      total = length agents;
      online = 0;
      away = 0;
      busy = 0;
      offline = 0;
      timestamp = now / second;
    } in
    let (counts, online, total) = tally_all-counted agents start in
    record {
      total = total;
      online = omega (arith, online);
      counts = omega (arith, counts);
      within = omega (arith, counts, total, length-filter (λ a. has_counter a.status) agents);
    }

module _ ⦃sv : Services⦄ (s : AgentService) where
  -- The statistics are those of the listed agents: the total is their number, each counter counts
  -- its status, and an agent with no known status is in the total alone.
  pub get_stats-Reflects :
      (now : Time) (tenant : Uuid) (w : World sv) (st : AgentStats)
      → (get_stats s now tenant w).0 ≡ ok st
      → (agents : List Agent) × ((list_by_tenant s tenant w).0 ≡ ok agents) × Reflects agents st
  unfolding get_stats
  get_stats-Reflects now tenant w st h = elim (Result-cases (list_by_tenant s tenant w).0) [
    | inr (x, failed) ↦ absurd (ground (arith, failed, h))
    | inl (agents, given) ↦
        let e : stats_of now agents ≡ st = ok_injective (ground (arith, given, h)) in
        (agents, given, rw (← e) (stats_of-Reflects now agents))
  ]
