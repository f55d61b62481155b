-- ===== src/Services/Memory/Faults.antt =====
-- The faults that a service in memory has still to make.
use agentmsg.Prelude.{Bool, false, List, [], ◌∷◌}
use agentmsg.Exec.{Error}

-- Does the next call fail, and the faults after it.
abbrev pub fails : List Bool → Bool
fails [] = false
fails (b ∷ _) = b

abbrev pub rest : List Bool → List Bool
rest [] = []
rest (_ ∷ bs) = bs

abbrev pub down : Error
down = Error.external "down"
