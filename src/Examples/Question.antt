-- ===== src/Examples/Question.antt =====
-- What an answer covers, at a concrete input: Ana asks about a log line of her task.
use mathlib.Core.List.{Memᴰ}
use boreas.Prelude.{refl, true, false, [], ◌∷◌}
use boreas.Core.Roles.{owner}
use boreas.Core.Model.{ProjectAccess}
use boreas.Store.Inbox.{Inbox}
use boreas.Bora.State.{Bora}
use boreas.Bora.About.{AboutKind, BoraAbout}
use boreas.Bora.About.Open.{new_bora}
use boreas.Bora.About.Narrow.{Covers, new_bora-Covers}
use boreas.Examples.Assistant.{aid, empty_answer}
use boreas.Examples.Data.{quiet, world, ana, shop}

abbrev no_notes : Inbox
no_notes = record { notes = []; seen = []; subscriptions = [] }

abbrev line : BoraAbout
line = record {
  kind = AboutKind.log;
  project = "shop";
  task = "cart";
  id = 0;
  at = "2026-10-18T09:00:00Z";
  line = "panic";
}

abbrev first_answer : Bora
first_answer = record empty_answer {
  read = 20 ∷ [];
  label = "a log line of shop/cart";
  subject =
      "The task: shop/cart: running, dev in_progress, image shop/cart, port 0\nThe log line, at 2026-10-18T09:00:00Z: panic";
}

abbrev ana_shop : ProjectAccess
ana_shop = record { project = shop; user_id = 1; role = owner; all_tasks = true }

new_bora-Covers_example : Covers quiet aid no_notes line ana world first_answer ana_shop
unfolding new_bora boreas.Store.Projects.list_for_user boreas.Store.Grants.for_user
    boreas.Store.Tasks.list_all boreas.Bora.About.bora_serves boreas.Core.Roles.max
    boreas.Bora.About.task_line
new_bora-Covers_example =
    new_bora-Covers quiet aid no_notes line ana false world first_answer ana_shop refl
      (Memᴰ.head refl)
