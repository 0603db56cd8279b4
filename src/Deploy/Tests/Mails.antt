-- ===== src/Deploy/Tests/Mails.antt =====
-- Two rounds of the mails for Ann's deployment.
use swkoo_kr.Prelude.{◌≡◌, refl, true, none, some, [], ◌∷◌, AllPairs, ok}
use swkoo_kr.Prelude.Texts.{lit, text_beq}
use swkoo_kr.Accounts.Users.{UserRow, hydrate, find_by_id, set_last_notified_image_sha, audit}
use swkoo_kr.Accounts.Notifications.{
  queue_deploy_notification, start_deploy_notification_attempt, finish_deploy_notification,
}
use swkoo_kr.Accounts.Reach.{empty_db}
use swkoo_kr.Accounts.Tests.{ann}
use swkoo_kr.Deploy.Stages.Pipeline.{get_stages}
use swkoo_kr.Deploy.Notify.{Tick, attempt}
use swkoo_kr.Deploy.Notify.Mails.{mail_times, IsSpaced}
use swkoo_kr.Deploy.Notify.Spacing.{mail_times-IsSpaced}
use swkoo_kr.Deploy.Tests.{hash, settled_app, answers}

abbrev user : UserRow
user = hydrate ann

abbrev tick : Tick
tick = record {
  now = 1000;
  uuid = lit "u";
  current = ok none;
  app = some settled_app;
  stages = (get_stages true (lit "ann") (lit "shop") answers []).1;
  live = some 200;
  payload = lit "{}";
  accepted = true;
}

tests : mail_times user (lit "shop") hash (tick ∷ tick ∷ []) empty_db ≡ 1000 ∷ []
unfolding lit text_beq mail_times attempt queue_deploy_notification
    start_deploy_notification_attempt finish_deploy_notification find_by_id
    set_last_notified_image_sha audit
tests = refl

mail_times-IsSpaced_example :
    AllPairs IsSpaced (mail_times user (lit "shop") hash (tick ∷ tick ∷ []) empty_db)
mail_times-IsSpaced_example =
    mail_times-IsSpaced user (lit "shop") hash (tick ∷ tick ∷ []) empty_db refl
