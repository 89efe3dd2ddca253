-- ===== src/Project/Notices.antt =====
-- `notification` of internal/service/task_service.go.
use boreas.Prelude.{String, none}
use boreas.Prelude.Text.{◌<>◌}
use boreas.Core.Enums.{NotificationType, status}
use boreas.Core.Model.{Project, Notification}

unfoldable pub notification : Project → String → NotificationType → String → String → Notification
unfolding status
notification project task kind event detail = record {
  project_id = project.id;
  task_name = task;
  type = kind;
  status = status kind;
  title = event <> " • " <> project.name;
  body = task <> ": " <> detail;
  user_id = none;
}
