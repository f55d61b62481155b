-- ===== src/Repository/AuditLogs.antt =====
-- `PostgresDB.CreateAuditLog` (internal/repository/postgres.go), which lists every column.
use agentmsg.Exec.{Exec}
use agentmsg.Model.Audit.{AuditLog}
use agentmsg.Services.World.{Services, World}
use agentmsg.Repository.Statements.{insert_audit_log}

module _ ⦃sv : Services⦄ where
  unfoldable pub create_audit_log : AuditLog → Exec (World sv) (Unit {0})
  create_audit_log entry = insert_audit_log entry
