-- ===== src/Engine/Channels.antt =====
-- Routing and publication (internal/engine/engine.go): `MessageRouter.Route` and the loops that
-- publish a message's identifier on the channel of each recipient.
pub mod Published
use Prim.Native.String.{◌++◌ as str_append}
use agentmsg.Prelude.{ℕ, String, List, [], ◌∷◌, map}
use agentmsg.Exec.{Result, ok, err, Exec, ◌>>=◌, ◌>>◌}
use agentmsg.Model.Scalars.{Uuid}
use agentmsg.Model.Message.{Message}
use agentmsg.Services.World.{Services, World}

pub record Route : Type 0 where
  pub recipient_id : Uuid
  pub channel : String
  pub priority : ℕ

module _ ⦃sv : Services⦄ where
  -- `"agent:" + recipientID.String() + ":queue"`
  unfoldable pub agent_channel : Uuid → String
  agent_channel id = str_append "agent:" (str_append (sv.uuids.text id) ":queue")

  -- `MessageRouter.Route`; the priority is left at 0, and no strategy is consulted.
  unfoldable pub route : Message → List Route
  route m =
      map (λ id. record { recipient_id = id; channel = agent_channel id; priority = 0 })
        m.recipient_ids

  abbrev pub publish : String → String → Exec (World sv) (Unit {0})
  publish channel text w =
      let (r, t) = sv.channels.publish channel text w.channels in (r, record w { channels = t })

  -- The publication loop: it stops at the first error.
  unfoldable pub publish_each : List Uuid → String → Exec (World sv) (Unit {0})
  publish_each [] text w = (ok tt, w)
  publish_each (id ∷ ids) text w =
      let (r, w') = publish (agent_channel id) text w in
      elim r [ ok _ ↦ publish_each ids text w' | err e ↦ (err e, w') ]
