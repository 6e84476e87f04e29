-- ===== src/Messages/Ack/Slots/Distinct.antt =====
-- src/messages/ack.c: the report queue has one report at most for each peer.
use lbard.Prelude.{
  ℕ, zero, suc, ◌+◌, ◌%◌, ◌≤◌, ◌<◌, List, [], ◌∷◌, ◌++◌, ◌≡◌, ◌≢◌, ◌⊎◌, inl, inr, sym, ap, ◌∙◌,
  true, false, leb, ◌==◌, ==_iff, if◌then◌else◌, length, set, length-set, length-append, All, arith,
  Bool-cases, leb→le, get_or,
}
use mathlib.Core.Path.{subst}
use lbard.Prelude.{get_or-set_self, get_or-append_right}
use lbard.Messages.Ack.Slots.{
  report_queue_len, Report, find_slot, slot_of, sync_schedule_progress_report,
}

-- No two reports are for the same peer.
unfoldable pub AreDistinct : List Report → Type 0
AreDistinct [] = Unit
AreDistinct (r ∷ queue) = All (λ s. s.peer ≢ r.peer) queue × AreDistinct queue

-- Where the search ends: at a slot of the peer that none before is for, or behind the last.
found_or_end :
    (peer i : ℕ) (queue : List Report)
    → (All (λ r. r.peer ≢ peer) queue × (find_slot peer i queue ≡ i + length queue))
      ⊎ ((k : ℕ) × (k < length queue)
          × (find_slot peer i queue ≡ i + k)
          × ((d : Report) → (get_or queue k d).peer ≡ peer))
unfolding find_slot
found_or_end peer i [] = inl (tt, omega arith)
found_or_end peer i (r ∷ queue) = elim (Bool-cases (r.peer == peer)) [
  | inl e ↦ inr (
    0,
    omega arith,
    ap (λ t. if t then i else find_slot peer (i + 1) queue) e ∙ (omega arith),
    λ d. (==_iff r.peer peer).0 e,
  )
  | inr e ↦ elim (found_or_end peer (i + 1) queue) [
    | inl h ↦ inl (
      (ground arith, h.0),
      ap (λ t. if t then i else find_slot peer (i + 1) queue) e ∙ omega (arith, h.1),
    )
    | inr h ↦ inr (
      suc h.0,
      omega (arith, h.1),
      ap (λ t. if t then i else find_slot peer (i + 1) queue) e ∙ omega (arith, h.2),
      h.3,
    )
  ]
]

-- The same, but for the report in slot `k`: none is for the peer.
Others : ℕ → ℕ → List Report → Type 0
Others k peer [] = Unit
Others zero peer (r ∷ queue) = All (λ s. s.peer ≢ peer) queue
Others (suc k) peer (r ∷ queue) = (r.peer ≢ peer) × Others k peer queue

All-set {κ} :
    (P : Report → Type κ) (queue : List Report) (k : ℕ) (v : Report)
    → All P queue
    → P v
    → All P (set queue k v)
All-set P [] k v h hv = tt
All-set P (r ∷ queue) zero v h hv = (hv, h.1)
All-set P (r ∷ queue) (suc k) v h hv = (h.0, All-set P queue k v h.1 hv)

All-get_or {κ} :
    (P : Report → Type κ) (queue : List Report) (k : ℕ) (d : Report)
    → All P queue
    → k < length queue
    → P (get_or queue k d)
All-get_or P [] k d h hk = elim hk [ ]
All-get_or P (r ∷ queue) zero d h hk = h.0
All-get_or P (r ∷ queue) (suc k) d h hk = All-get_or P queue k d h.1 (omega arith)

Others-none :
    (k peer : ℕ) (queue : List Report) → All (λ r. r.peer ≢ peer) queue → Others k peer queue
unfolding Others
Others-none k peer [] h = tt
Others-none zero peer (r ∷ queue) h = h.1
Others-none (suc k) peer (r ∷ queue) h = (h.0, Others-none k peer queue h.1)

Others-own :
    (k peer : ℕ) (queue : List Report) (d : Report)
    → AreDistinct queue
    → k < length queue
    → (get_or queue k d).peer ≡ peer
    → Others k peer queue
unfolding Others AreDistinct
Others-own k peer [] d h hk e = tt
Others-own zero peer (r ∷ queue) d h hk e = subst (λ p. All (λ s. s.peer ≢ p) queue) e h.0
Others-own (suc k) peer (r ∷ queue) d h hk e = (
  λ f. All-get_or (λ s. s.peer ≢ r.peer) queue k d h.0 (omega arith) (e ∙ sym f),
  Others-own k peer queue d h.1 (omega arith) e,
)

set-AreDistinct :
    (queue : List Report) (k : ℕ) (report : Report)
    → AreDistinct queue
    → Others k report.peer queue
    → AreDistinct (set queue k report)
unfolding Others AreDistinct
set-AreDistinct [] k report h o = tt
set-AreDistinct (r ∷ queue) zero report h o = (o, h.1)
set-AreDistinct (r ∷ queue) (suc k) report h o = (
  All-set (λ s. s.peer ≢ r.peer) queue k report h.0 (λ e. o.0 (sym e)),
  set-AreDistinct queue k report h.1 o.1,
)

append-AreDistinct :
    (queue : List Report) (report : Report)
    → AreDistinct queue
    → All (λ r. r.peer ≢ report.peer) queue
    → AreDistinct (queue ++ (report ∷ []))
unfolding AreDistinct
append-AreDistinct [] report h a = (tt, tt)
append-AreDistinct (r ∷ queue) report h a =
    (All-append_one queue report r h.0 (λ e. a.0 (sym e)), append-AreDistinct queue report h.1 a.1)
  where
    All-append_one :
        (queue : List Report) (report r : Report)
        → All (λ s. s.peer ≢ r.peer) queue
        → report.peer ≢ r.peer
        → All (λ s. s.peer ≢ r.peer) (queue ++ (report ∷ []))
    All-append_one [] report r h ne = (ne, tt)
    All-append_one (s ∷ queue) report r h ne = (h.0, All-append_one queue report r h.1 ne)

-- The queue has a report as one of its entries.
pub HasReport : Report → List Report → Type 0
HasReport report queue = (k : ℕ) × (k < length queue) × ((d : Report) → get_or queue k d ≡ report)

pub Scheduled : Report → List Report → Type 0
Scheduled report queue =
    AreDistinct queue × (length queue ≤ report_queue_len) × HasReport report queue

set-Scheduled :
    (queue : List Report) (slot : ℕ) (report : Report)
    → AreDistinct queue
    → length queue ≤ 32
    → slot < length queue
    → Others slot report.peer queue
    → Scheduled report (set queue slot report)
unfolding Scheduled HasReport
set-Scheduled queue slot report h le hs o = (
  set-AreDistinct queue slot report h o,
  omega (arith, length-set queue slot report),
  (slot, omega (arith, length-set queue slot report), λ d. get_or-set_self queue slot report d hs),
)

append-Scheduled :
    (queue : List Report) (report : Report)
    → AreDistinct queue
    → length queue < 32
    → All (λ r. r.peer ≢ report.peer) queue
    → Scheduled report (queue ++ (report ∷ []))
unfolding Scheduled HasReport
append-Scheduled queue report h lt a = (
  append-AreDistinct queue report h a,
  omega (arith, length-append queue (report ∷ [])),
  (
    length queue,
    omega (arith, length-append queue (report ∷ [])),
    λ d. get_or-append_right queue (report ∷ []) (length queue) 0 d (omega arith),
  ),
)

le→leb : (a b : ℕ) → a ≤ b → leb a b ≡ true
le→leb a b h = ground arith

lt→leb : (a b : ℕ) → b < a → leb a b ≡ false
lt→leb a b h = ground arith

-- What is made of the queue once the slot is known.
placed : Report → List Report → ℕ → List Report
placed report queue slot =
    if leb (length queue) slot then queue ++ (report ∷ []) else set queue slot report

placed_new :
    (queue : List Report) (slot : ℕ) (report : Report)
    → AreDistinct queue
    → slot ≡ length queue
    → length queue < 32
    → All (λ r. r.peer ≢ report.peer) queue
    → Scheduled report (placed report queue slot)
unfolding placed
placed_new queue slot report h e lt a =
    subst (λ t. Scheduled report (if t then queue ++ (report ∷ []) else set queue slot report))
      (sym (le→leb (length queue) slot (omega arith))) (append-Scheduled queue report h lt a)

placed_over :
    (queue : List Report) (slot : ℕ) (report : Report)
    → AreDistinct queue
    → length queue ≤ 32
    → slot < length queue
    → Others slot report.peer queue
    → Scheduled report (placed report queue slot)
unfolding placed
placed_over queue slot report h le hs o =
    subst (λ t. Scheduled report (if t then queue ++ (report ∷ []) else set queue slot report))
      (sym (lt→leb (length queue) slot hs)) (set-Scheduled queue slot report h le hs o)

slot_cases :
    (random slot : ℕ)
    → ((slot < 32) × ((if leb 32 slot then random % 32 else slot) ≡ slot))
      ⊎ ((32 ≤ slot) × ((if leb 32 slot then random % 32 else slot) ≡ random % 32))
slot_cases random slot = elim (Bool-cases (leb 32 slot)) [
  | inl e ↦ inr (leb→le 32 slot e, ap (λ t. if t then random % 32 else slot) e)
  | inr e ↦ inl (ground arith, ap (λ t. if t then random % 32 else slot) e)
]

-- A queue of 32 reports at most, no two of them for the same peer, is so again after a report has
-- been scheduled, which is one of its entries then, whatever slot is taken in a full queue.
pub sync_schedule_progress_report-Scheduled :
    (random : ℕ) (report : Report) (queue : List Report)
    → AreDistinct queue
    → length queue ≤ report_queue_len
    → Scheduled report (sync_schedule_progress_report random report queue)
unfolding sync_schedule_progress_report slot_of placed
sync_schedule_progress_report-Scheduled random report queue h le =
    let slot = find_slot report.peer 0 queue in
    let to : (n : ℕ)
        → (if leb 32 slot then random % 32 else slot) ≡ n
        → Scheduled report (placed report queue n)
        → Scheduled report (sync_schedule_progress_report random report queue) =
      λ n e p. subst (λ m. Scheduled report (placed report queue m)) (sym e) p in
    elim (found_or_end report.peer 0 queue) [
      | inl new ↦ elim (slot_cases random slot) [
        | inl free ↦ to slot free.1 (
            placed_new queue slot report h (omega (arith, new.1)) (omega (arith, new.1, free.0))
              new.0)
        | inr all ↦ to (random % 32) all.1 (
            placed_over queue (random % 32) report h le (omega (arith, new.1, all.0))
              (Others-none (random % 32) report.peer queue new.0))
      ]
      | inr own ↦ elim (slot_cases random slot) [
        | inl free ↦ to slot free.1 (
            placed_over queue slot report h le (omega (arith, own.1, own.2)) (
              Others-own slot report.peer queue report h (omega (arith, own.1, own.2))
                (ap (λ m. (get_or queue m report).peer) (omega (arith, own.2)) ∙ own.3 report)))
        | inr all ↦ absurd (omega (arith, own.1, own.2, all.0))
      ]
    ]
