-- ===== src/Notify/Feed/Examples.antt =====
-- Tests for the feed.
use vpn_infrastructure_showc.Base.{ℕ, ◌≡◌, refl, none, some, [], ◌∷◌}
use vpn_infrastructure_showc.Model.{Notification, Portal}
use vpn_infrastructure_showc.Exec.{ok}
use vpn_infrastructure_showc.Sample.{portal}
use vpn_infrastructure_showc.Notify.Feed.{mark_read, mark_for, found_or_404}

abbrev message : ℕ → ℕ → ℕ → Notification
message key uid at = record {
  id = key;
  user_id = uid;
  kind = "service";
  link = none;
  dedupe_key = none;
  created_at = at;
  read_at = none;
}

abbrev tables : Portal
tables = record (portal []) {
  notifications = message 1 1 10 ∷ message 2 2 20 ∷ message 3 1 30 ∷ [];
}

-- a key of another account's message marks nothing
own_only : (mark_read "alice" (some (2 ∷ 3 ∷ [])) 50 tables).0 ≡ ok 1
unfolding mark_read mark_for found_or_404
own_only = refl
