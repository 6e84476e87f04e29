-- ===== src/Messages/Ack/Slots.antt =====
-- src/messages/ack.c: the slots of the report queue, as `sync_schedule_progress_report` fills them.
pub mod Distinct
mod Tests
use lbard.Prelude.{
  ℕ, zero, suc, ◌+◌, ◌%◌, ◌≤◌, ◌<◌, List, [], ◌∷◌, ◌++◌, ◌≡◌, ◌≢◌, ◌⊎◌, inl, inr, refl, sym, ap,
  ◌∙◌, Bool, true, false, leb, ◌==◌, ==_iff, if◌then◌else◌, length, set, length-set, length-append,
  All, arith, Bool-cases, ltb, get_or, replicate,
}

-- `REPORT_QUEUE_LEN`
abbrev pub report_queue_len : ℕ
report_queue_len = 32

-- A slot: the peer that it is for, the number of the partial, and the bytes of the report.
pub record Report : Type 0 where
  pub peer : ℕ
  pub partial : ℕ
  pub bytes : List ℕ

-- The loop that looks for a slot of the peer, from number `i` on.
unfoldable pub find_slot : ℕ → ℕ → List Report → ℕ
find_slot peer i [] = i
find_slot peer i (r ∷ queue) =
    let rest = find_slot peer (i + 1) queue in if r.peer == peer then i else rest

-- The slot that a report goes to: the peer's own, a new one, or, in a full queue, any.
unfoldable pub slot_of : ℕ → ℕ → List Report → ℕ
unfolding find_slot
slot_of random peer queue =
    let slot = find_slot peer 0 queue in
    if leb report_queue_len slot then random % report_queue_len else slot

-- The queue afterwards: its length goes up when the slot is behind the last one.
unfoldable pub sync_schedule_progress_report : ℕ → Report → List Report → List Report
unfolding slot_of
sync_schedule_progress_report random report queue =
    let slot = slot_of random report.peer queue in
    if leb (length queue) slot then queue ++ (report ∷ []) else set queue slot report
