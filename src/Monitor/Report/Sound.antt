-- ===== src/Monitor/Report/Sound.antt =====
-- The events of the monitor stay sound.
use vpn_infrastructure_showc.Base.{
  ℕ, ◌≤◌, ◌≡◌, refl, String, false, Option, some, [], arith, eq_iff, str_eq, any, select, All-every,
  Bool-cases, inl, inr,
}
use vpn_infrastructure_showc.Exec.{Result, ok, err}
use vpn_infrastructure_showc.Monitor.{MonitorEvent, Board, silent_key}
use vpn_infrastructure_showc.Monitor.Steps.{Problem}
use vpn_infrastructure_showc.Monitor.Report.{
  Report, is_open_elsewhere, authorised, accept, by_key, note_problems, close_others, note_notices,
  take_report, receive,
}
use vpn_infrastructure_showc.Monitor.Report.Keys.{by_key-NodupKeys, by_key-All, lookup-by_key}
use vpn_infrastructure_showc.Monitor.Report.Counts.{
  open_of, open_of-note_notices, open_of-forget_old,
}
use vpn_infrastructure_showc.Monitor.Report.Folds.{
  IsKeyed, open_of-note_problems, open_of-close_others_le,
}
use vpn_infrastructure_showc.Monitor.Report.Exact.{IsSound, take_report-opens, authorised-same}
use vpn_infrastructure_showc.Monitor.Report.Ids.{take_report-HasIds}

module _ (k : String) where
  -- a key that the report does not carry gains no open event
  take_report-fewer :
      (now : ℕ) (report : Report) (b : Board)
      → any (λ (p : Problem). str_eq p.key k) report.problems ≡ false
      → open_of k (take_report now report b).events ≤ open_of k b.events
  unfolding take_report
  take_report-fewer now report b quiet =
      let D = by_key (λ (e : MonitorEvent). e.key) (select is_open_elsewhere b.events) [] in
      let C = by_key (λ (p : Problem). p.key) report.problems [] in
      let received : Board = record b { received_at = some now } in
      let noted = open_of-note_problems k now D C received (by_key-NodupKeys _ _ [] tt) (
        by_key-All (λ (p : Problem). p.key) IsKeyed report.problems []
          (All-every (λ p. IsKeyed (p.key, p)) (λ p. refl) report.problems) tt) in
      let asked = lookup-by_key (λ (p : Problem). p.key) k report.problems [] in
      ground (
        arith,
        noted,
        asked,
        quiet,
        open_of-forget_old k now (
            note_notices now report.notices
              (close_others now C D (note_problems now D C received))),
        open_of-note_notices k now report.notices
            (close_others now C D (note_problems now D C received)),
        open_of-close_others_le k now C D (note_problems now D C received),
      )

take_report-IsSound :
    (now : ℕ) (report : Report) (b : Board)
    → any (λ (p : Problem). str_eq p.key silent_key) report.problems ≡ false
    → IsSound b
    → IsSound (take_report now report b)
take_report-IsSound now report b quiet h =
    let kept = take_report-HasIds now report b (h.ids, h.fresh) in
    record {
      ids = kept.0;
      fresh = kept.1;
      single = λ k. elim (Bool-cases (str_eq k silent_key)) [
        | inl own ↦
            rw ((eq_iff k silent_key).0 own)
              (omega (arith, take_report-fewer silent_key now report b quiet, h.single silent_key))
        | inr loud ↦ rw (take_report-opens k now report b h loud) (ground arith)
      ];
    }

answer-IsSound :
    (now : ℕ) (report : Report) (b : Board) (r : Result (Unit {0}) × Board)
    → any (λ (p : Problem). str_eq p.key silent_key) report.problems ≡ false
    → IsSound b
    → r.1 ≡ b
    → IsSound (accept now report r).1
answer-IsSound now report b (ok a, c) quiet h same =
    rw same (take_report-IsSound now report b quiet h)
answer-IsSound now report b (err e, c) quiet h same = rw same h

-- Whether a report is taken or refused, sound events stay sound: ids stay distinct and drawn in
-- order, and no key is open twice. The report has no problem under the portal's own key.
pub receive-IsSound :
    (token : String) (header : Option String) (now : ℕ) (report : Report) (b : Board)
    → any (λ (p : Problem). str_eq p.key silent_key) report.problems ≡ false
    → IsSound b
    → IsSound (receive token header now report b).1
unfolding receive
receive-IsSound token header now report b quiet h =
    answer-IsSound now report b (authorised token header b) quiet h (authorised-same token header b)
