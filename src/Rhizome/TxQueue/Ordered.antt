-- ===== src/Rhizome/TxQueue/Ordered.antt =====
-- `peer_queue_bundle_tx`: every call keeps the queue in order.
use lbard.Prelude.{
  ℕ, zero, suc, ◌+◌, ◌-◌, ◌≤◌, ◌<◌, List, ◌≡◌, refl, ap, ◌∙◌, inl, inr, drop, set, get_or, length,
  length-set, get_or-set_ne, length-take, length-drop, get_or-take, get_or-drop, arith, dec_lt,
  ℕ_discrete, Bool-cases,
}
use lbard.Rhizome.TxQueue.{
  Peer, queued_bundles, queued_priorities, shift_down, is_queued, peer_queue_bundle_tx,
  max_txqueue_len,
}
use lbard.Rhizome.TxQueue.Place.{
  priority_at, IsQueue, IsOrdered, insertion_point-le, before_insertion_point, at_insertion_point,
  length-shift_down,
}
use lbard.Rhizome.TxQueue.Insert.{
  IsInserted, point, written, queued_already, refused, peer_queue_bundle_tx-IsInserted,
}

pub pred_lem : (k : ℕ) → 0 < k → k ≡ suc (k - 1)
pred_lem k h = omega arith

length-queued_bundles : (p : Peer) → IsQueue p → length (queued_bundles p) ≡ p.tx_queue_len
length-queued_bundles p v = omega (arith, v.size, v.room, length-take p.tx_queue_len p.words)

length-queued_priorities : (p : Peer) → IsQueue p → length (queued_priorities p) ≡ p.tx_queue_len
length-queued_priorities p v =
    omega
      (arith, v.size, v.room, length-take p.tx_queue_len (drop 10 p.words), length-drop 10 p.words)

pub get_or-queued_priorities :
    (p : Peer) (k : ℕ) → k < p.tx_queue_len → get_or (queued_priorities p) k 0 ≡ priority_at p k
get_or-queued_priorities p k h =
    get_or-take p.tx_queue_len (drop 10 p.words) k 0 h ∙ get_or-drop 10 p.words k (10 + k) 0 refl

-- An insertion in this way keeps the order, if the place is the first entry of a lower priority.
IsInserted-IsOrdered :
    (p q : Peer) (i index priority : ℕ)
    → IsInserted p q i index priority
    → IsOrdered p
    → i ≤ p.tx_queue_len
    → ((k : ℕ) → k < i → priority ≤ priority_at p k)
    → (i < p.tx_queue_len → priority_at p i < priority)
    → IsOrdered q
IsInserted-IsOrdered p q i index priority s o le above below k h = elim (dec_lt (suc k) i) [
  | yes lower ↦
      omega (arith, (s.before (suc k) lower).1, (s.before k (omega arith)).1, o k (omega arith))
  | no not_lower ↦ elim (ℕ_discrete (suc k) i) [
    | yes last ↦ omega (
      arith,
      ap (λ j. priority_at q j) last,
      s.here.1,
      (s.before k (omega arith)).1,
      above k (omega arith),
    )
    | no not_last ↦ elim (ℕ_discrete i k) [
      | yes next ↦ omega (
        arith,
        ap (λ j. priority_at q j) next,
        ap (λ j. priority_at p j) next,
        s.here.1,
        (s.behind k (omega arith) (omega (arith, s.len))).1,
        below (omega (arith, s.len)),
      )
      | no not_next ↦ later k (omega arith) (omega (arith, s.len))
    ]
  ]
]
  where
    later : (j : ℕ) → i < j → suc j < p.tx_queue_len → priority_at q (suc j) ≤ priority_at q j
    later zero a b = absurd (omega arith)
    later (suc j) a b = omega (
      arith,
      (s.behind (suc j) (omega arith) b).1,
      (s.behind j (omega arith) (omega arith)).1,
      o j (omega arith),
    )

-- Every call keeps the memory, the bound and the order of the queue, whether it inserts the
-- bundle, finds it queued already or refuses it.
pub peer_queue_bundle_tx-IsOrdered :
    (p : Peer) (index priority : ℕ)
    → IsQueue p
    → IsOrdered p
    → IsQueue (peer_queue_bundle_tx p index priority).0
      × IsOrdered (peer_queue_bundle_tx p index priority).0
peer_queue_bundle_tx-IsOrdered p index priority v o =
    elim (Bool-cases (is_queued index (queued_bundles p))) [
      | inl old ↦ rw (queued_already p index priority old) (v, o)
      | inr new ↦ elim (dec_lt (point p priority) max_txqueue_len) [
        | yes k ↦ (
          rw (written p index priority new k) (record {
            size = omega (
              arith,
              fits,
              length-set shifted i index,
              length-set (set shifted i index) (10 + i) priority,
            );
            room = ground (arith, v.room);
          }),
          IsInserted-IsOrdered p (peer_queue_bundle_tx p index priority).0 i index priority
              (peer_queue_bundle_tx-IsInserted p index priority v new k) o le above below,
        )
        | no k ↦ rw (refused p index priority new (omega arith)) (
          record { size = omega (arith, v.size, length-set p.words 20 1); room = v.room },
          λ j h. omega (
            arith,
            o j h,
            get_or-set_ne p.words 20 (10 + suc j) 1 0 (omega (arith, v.room)),
            get_or-set_ne p.words 20 (10 + j) 1 0 (omega (arith, v.room)),
          ),
        )
      ]
    ]
  where
    i : ℕ
    i = point p priority

    shifted : List ℕ
    shifted = shift_down i p.tx_queue_len p.words

    fits : length shifted ≡ 32
    fits = length-shift_down p.words v.size i p.tx_queue_len v.room

    le : i ≤ p.tx_queue_len
    le =
        omega
          (arith, insertion_point-le priority (queued_priorities p), length-queued_priorities p v)

    above : (k : ℕ) → k < i → priority ≤ priority_at p k
    above k h = omega (
      arith,
      before_insertion_point priority (queued_priorities p) k h,
      get_or-queued_priorities p k (omega (arith, le)),
    )

    below : i < p.tx_queue_len → priority_at p i < priority
    below h = omega (
      arith,
      at_insertion_point priority (queued_priorities p)
          (omega (arith, length-queued_priorities p v)),
      get_or-queued_priorities p i h,
    )
