-- ===== src/Messages/Ack/Slots/Tests.antt =====
-- Reports that are scheduled, and the theorem about them at an input.
use lbard.Prelude.{ℕ, ◌∷◌, [], ◌≡◌, refl, List, arith}
use lbard.Messages.Ack.Slots.{Report, find_slot, slot_of, sync_schedule_progress_report}
use lbard.Messages.Ack.Slots.Distinct.{
  AreDistinct, Scheduled, sync_schedule_progress_report-Scheduled,
}

program : Unit {0}
unfolding find_slot slot_of sync_schedule_progress_report AreDistinct
program = tt

abbrev report : ℕ → ℕ → Report
report peer partial = record { peer = peer; partial = partial; bytes = 0x41 ∷ [] }

abbrev queue : List Report
queue = report 1 7 ∷ report 2 8 ∷ []

abbrev partials : List Report → List ℕ
partials [] = []
partials (r ∷ reports) = r.partial ∷ partials reports

abbrev replaced : List ℕ
replaced = 7 ∷ 9 ∷ []

-- A newer report for a peer takes the place of the older one.
replaces : partials (sync_schedule_progress_report 5 (report 2 9) queue) ≡ replaced
unfolding program
replaces = refl

distinct : AreDistinct queue
unfolding program
distinct = (((λ e. absurd (omega arith)), tt), (tt, tt))

sync_schedule_progress_report-Scheduled_example :
    Scheduled (report 3 9) (sync_schedule_progress_report 5 (report 3 9) queue)
sync_schedule_progress_report-Scheduled_example =
    sync_schedule_progress_report-Scheduled 5 (report 3 9) queue distinct (omega arith)
