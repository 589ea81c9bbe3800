-- ===== src/Notify/Reminders/Examples.antt =====
-- Reminders for a customer whose period ends within a day.
use vpn_infrastructure_showc.Base.{◌≡◌, refl, []}
use vpn_infrastructure_showc.Notify.{already_sent, notify, post, send_letter}
use vpn_infrastructure_showc.Notify.Reminders.{
  is_sub_ending, is_trial_ending, sub_reminder, trial_reminder, count_sent, remind, remind_all,
  remind_due,
}
use vpn_infrastructure_showc.Notify.Reminders.Once.{remind_due-again}
use vpn_infrastructure_showc.Sample.{portal}

one_is_due : (remind_due 1000 (portal [])).0 ≡ 1
unfolding remind_due remind_all remind count_sent sub_reminder trial_reminder is_sub_ending
    is_trial_ending notify post send_letter already_sent
one_is_due = refl

remind_due-again_example :
    let db' = (remind_due 1000 (portal [])).1 in remind_due 1000 db' ≡ (0, db')
remind_due-again_example = remind_due-again 1000 (portal [])
