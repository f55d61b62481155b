-- ===== src/Repository/Messages.antt =====
-- `MessageRepository` of internal/repository/postgres.go. Every time that a statement takes from
-- `NOW()` is the argument `now`.
pub mod Found
use agentmsg.Prelude.{
  ℤ, Bool, true, false, ◌&&◌, Option, none, some, List, [], ◌∷◌, ◌==◌, if◌then◌else◌,
}
use agentmsg.Exec.{Result, ok, err, Exec, ◌>>=◌}
use agentmsg.Model.Scalars.{Uuid, Time}
use agentmsg.Model.Message.{Message, MessageStatus, RecipientStr, set_recipients, scan_recipients}
use agentmsg.Services.Table.{descending}
use agentmsg.Services.World.{Services, World}
use agentmsg.Repository.Statements.{
  get_message, select_messages, insert_message, update_messages, only_error,
}

-- The row that the INSERT of `Create` makes: `RecipientIDs` has no column, and the three times are
-- not in its column list, so they are the column's defaults.
unfoldable pub inserted_row : Time → Message → Message
inserted_row now m = record m {
  recipient_ids = [];
  created_at = now;
  expires_at = none;
  processed_at = none;
}

-- `if msg.RecipientStr == "" { msg.SetRecipients() }`
unfoldable pub ensure_recipient_str : Message → Message
ensure_recipient_str m = elim m.recipient_str [ RecipientStr.blank ↦ set_recipients m | _ ↦ m ]

-- The `CASE` of `UpdateStatus`: these statuses set `processed_at`.
unfoldable pub sets_processed_at : MessageStatus → Bool
sets_processed_at MessageStatus.delivered = true
sets_processed_at MessageStatus.processed = true
sets_processed_at MessageStatus.failed = true
sets_processed_at MessageStatus.dead_letter = true
sets_processed_at _ = false

-- The `SET` clause of `UpdateStatus`.
unfoldable pub with_status : MessageStatus → Time → Message → Message
unfolding sets_processed_at
with_status status now m = record m {
  status = status;
  processed_at = if sets_processed_at status then some now else m.processed_at;
}

-- `ScanRecipients` on a row that was found; `none` is `sql.ErrNoRows`.
unfoldable pub scan_found : Option Message → Result (Option Message)
unfolding scan_recipients
scan_found none = ok none
scan_found (some m) = elim (scan_recipients m) [ ok m' ↦ ok (some m') | err e ↦ err e ]

-- The loop over the rows of a list, which stops at the first that does not decode.
unfoldable pub scan_all : List Message → Result (List Message)
unfolding scan_recipients
scan_all [] = ok []
scan_all (m ∷ ms) =
    let rest = scan_all ms in
    elim (scan_recipients m) [
      | ok m' ↦ elim rest [ ok ms' ↦ ok (m' ∷ ms') | err e ↦ err e ]
      | err e ↦ err e
    ]

module _ ⦃sv : Services⦄ where
  unfoldable pub create : Time → Message → Exec (World sv) (Unit {0})
  unfolding inserted_row ensure_recipient_str
  create now m = insert_message (inserted_row now (ensure_recipient_str m))

  unfoldable pub get_by_id : Uuid → Exec (World sv) (Option Message)
  unfolding scan_found
  get_by_id id = do found ← get_message (λ m. m.id == id); λ w. (scan_found found, w)

  unfoldable pub get_by_id_for_tenant : Uuid → Uuid → Exec (World sv) (Option Message)
  unfolding scan_found
  get_by_id_for_tenant tenant id = do
    found ← get_message (λ m. (m.id == id) && (m.tenant_id == tenant))
    λ w. (scan_found found, w)

  unfoldable pub update_status : Time → Uuid → MessageStatus → Exec (World sv) (Unit {0})
  unfolding with_status
  update_status now id status =
      only_error (update_messages (λ m. m.id == id) (with_status status now))

  unfoldable pub list_by_conversation : Uuid → ℤ → Exec (World sv) (List Message)
  unfolding scan_all
  list_by_conversation conversation limit = do
    rows ← select_messages (record {
      wanted = λ m. m.conversation_id == conversation;
      order = descending (λ m. m.created_at);
      limit = some limit;
      offset = none;
    })
    λ w. (scan_all rows, w)

  unfoldable pub list_by_conversation_for_tenant : Uuid → Uuid → ℤ → Exec (World sv) (List Message)
  unfolding scan_all
  list_by_conversation_for_tenant tenant conversation limit = do
    rows ← select_messages (record {
      wanted = λ m. (m.tenant_id == tenant) && (m.conversation_id == conversation);
      order = descending (λ m. m.created_at);
      limit = some limit;
      offset = none;
    })
    λ w. (scan_all rows, w)

  unfoldable pub list_by_tenant : Uuid → ℤ → ℤ → Exec (World sv) (List Message)
  unfolding scan_all
  list_by_tenant tenant limit offset = do
    rows ← select_messages (record {
      wanted = λ m. m.tenant_id == tenant;
      order = descending (λ m. m.created_at);
      limit = some limit;
      offset = some offset;
    })
    λ w. (scan_all rows, w)
