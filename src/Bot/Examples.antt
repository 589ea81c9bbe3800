-- ===== src/Bot/Examples.antt =====
-- A customer writes to the support and is answered; another sends a device's file.
use vpn_infrastructure_showc.Base.{String, ◌≡◌, refl, true, none, some, List, [], ◌∷◌, length}
use vpn_infrastructure_showc.PyText.{strip}
use vpn_infrastructure_showc.Exec.{err, http}
use vpn_infrastructure_showc.Accounts.{limiter}
use vpn_infrastructure_showc.Sample.{portal}
use vpn_infrastructure_showc.Bot.{
  looks_like_key, send_message, ApiRequest, ApiResponse, BotState, BotSettings, call, send,
}
use vpn_infrastructure_showc.Bot.Screens.{Moment}
use vpn_infrastructure_showc.Bot.Dialogue.{
  Message, message, has_key, handle, webhook, reply_or_text, on_text, screen_or_text, free_text,
  screens,
}
use vpn_infrastructure_showc.Bot.Support.{to_support}
use vpn_infrastructure_showc.Bot.Discreet.{handed, handle-discreet}

abbrev settings : BotSettings
settings = record { enabled = true; admin_chat = some 900; webhook_secret = "s"; banner_url = "b" }

-- Telegram numbers the messages
abbrev telegram : List ApiRequest → ApiRequest → ApiResponse
telegram made r = record { ok = true; description = ""; message_id = length made; file_id = none }

abbrev idle : BotState
idle = record {
  server = record { db = portal []; limits = limiter };
  support = [];
  seen = λ c. [];
  banner_id = none;
  requests = [];
}

abbrev noon : Moment
noon = record { now = 1000; clock = 5; generated = [] }

abbrev wrote : String → Message
wrote text = record {
  is_private = true;
  chat = 77;
  text = some text;
  username = some "bob";
  first_name = none;
  reply_to = none;
}

abbrev sign : String → String
sign t = t

key_kept :
    (handle settings telegram sign noon (message (wrote "my PrivateKey = x")) idle).1.requests
    ≡ send_message 77 looks_like_key ∷ []
unfolding handle reply_or_text on_text screen_or_text free_text screens has_key strip send call
key_kept = refl

handle-discreet_example :
    handed (handle settings telegram sign noon (message (wrote " [Interface] x")) idle).1 ≡ 0
unfolding has_key strip
handle-discreet_example =
    handle-discreet settings telegram sign noon (wrote " [Interface] x") idle refl

abbrev asked : BotState
asked = (to_support settings telegram (some 900) 5 77 "bob" "help" idle).1

abbrev asked_again : BotState
asked_again = (to_support settings telegram (some 900) 6 78 "eve" "help me" asked).1

stranger : (webhook settings telegram sign noon (some "x") none idle).0 ≡ err (http 403 "forbidden")
unfolding webhook
stranger = refl
