-- ===== src/Monitor/Steps/Examples.antt =====
-- Tests and witnesses for the monitor's runs.
use vpn_infrastructure_showc.Base.{String, ◌≡◌, refl, false, some, List, [], ◌∷◌, map}
use vpn_infrastructure_showc.PyText.{decimal}
use vpn_infrastructure_showc.Dict.{Dict, lookup}
use vpn_infrastructure_showc.Monitor.Steps.{
  dur, seen_again, is_due, told, judge, clear, step, reboots_of, reboots, carry, carry_all, run,
  save_if_sent, split_colons, level, reported,
}
use vpn_infrastructure_showc.Monitor.Steps.Streaks.{Run, after, streak, Remembers, streak-Remembers}

abbrev disk : Dict String
disk = ("a:disk", "a: disk") ∷ []

-- two runs in a row make a problem known, and its end is told
abbrev runs : List Run
runs = record { problems = disk; now = 220 } ∷ record { problems = disk; now = 100 } ∷ []

confirmed :
    (step (after 2 3600 (record { problems = disk; now = 100 } ∷ [])) disk 220 2 3600).0
    ≡ "🔴 a: disk" ∷ []
unfolding step judge clear told is_due seen_again
confirmed = refl

over : (step (after 2 3600 runs) [] 7300 2 3600).0 ≡ "✅ a: disk — прошло (2 ч 0 мин)" ∷ []
unfolding step judge clear told is_due seen_again dur decimal
over = refl

levels :
    map level ("a:disk" ∷ "a:poolfull:paid" ∷ "cert:x" ∷ "web:y" ∷ [])
    ≡ "warn" ∷ "bad" ∷ "warn" ∷ "bad" ∷ []
unfolding level split_colons
levels = refl

-- A problem that one run saw is told by the next run, in which its host did not answer.
told_unseen :
    let (msgs, kept) =
      run
        (after 2 3600 (record { problems = disk; now = 100 } ∷ []))
        (("a:down", "a: down") ∷ [])
        ("a" ∷ [])
        []
        220
        2
        3600 in
    (msgs ≡ "🔴 a: disk" ∷ []) × (map (λ p. p.key) (reported 2 kept) ≡ "a:disk" ∷ [])
unfolding run carry_all carry step judge clear told is_due seen_again reboots reboots_of reported
told_unseen = (refl, refl)

-- what could not be sent is not saved
not_saved :
    save_if_sent (λ msgs. false) (after 2 3600 []) ("x" ∷ [], after 2 3600 runs) ≡ after 2 3600 []
unfolding save_if_sent
not_saved = refl

rebooted :
    (reboots (record (after 2 3600 []) { boots = ("a", 1000) ∷ [] }) (("a", some 60) ∷ []) 9060).0
    ≡ "ℹ a: перезагрузился 1 мин назад" ∷ []
unfolding reboots reboots_of dur decimal
rebooted = refl

streak-Remembers_example :
    Remembers 2 3600 (streak "a:disk" runs) (lookup "a:disk" (after 2 3600 runs).problems)
streak-Remembers_example = streak-Remembers 2 3600 "a:disk" runs ((refl, tt), ((refl, tt), tt))
