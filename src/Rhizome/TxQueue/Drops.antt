-- ===== src/Rhizome/TxQueue/Drops.antt =====
-- `peer_queue_bundle_tx`: the entry that an insertion displaces.
use lbard.Prelude.{
  ℕ, suc, ◌+◌, ◌-◌, ◌≤◌, ◌<◌, List, ◌≡◌, ap, ◌∙◌, ◌⊎◌, inl, inr, false, set, get_or, get_or-set_ne,
  arith, dec_lt, ℕ_discrete,
}
use lbard.Rhizome.TxQueue.{
  Peer, queued_bundles, queued_priorities, shift_down, is_queued, peer_queue_bundle_tx, overflow_at,
}
use lbard.Rhizome.TxQueue.Place.{
  bundle_at, priority_at, IsQueue, before_insertion_point, kept_overflow,
}
use lbard.Rhizome.TxQueue.Insert.{
  IsInserted, point, written, accepted, peer_queue_bundle_tx-IsInserted,
}
use lbard.Rhizome.TxQueue.Ordered.{pred_lem, get_or-queued_priorities}

-- The last entry that the peer has queued has a lower priority than a bundle that is not queued.
-- Then the queue stays as long as it is, the overflow flag stays as it is and the call reports
-- success, and every entry is the new bundle or an entry that stood before the last: the last
-- bundle has been dropped, even if the queue has room.
pub peer_queue_bundle_tx_drops :
    (p : Peer) (index priority m : ℕ)
    → IsQueue p
    → is_queued index (queued_bundles p) ≡ false
    → p.tx_queue_len ≡ suc m
    → priority_at p m < priority
    → ((peer_queue_bundle_tx p index priority).0.tx_queue_len ≡ p.tx_queue_len)
      × ((peer_queue_bundle_tx p index priority).1 ≡ false)
      × (get_or (peer_queue_bundle_tx p index priority).0.words overflow_at 0
          ≡ get_or p.words overflow_at 0)
      × ((k : ℕ)
          → k < p.tx_queue_len
          → (bundle_at (peer_queue_bundle_tx p index priority).0 k ≡ index)
            ⊎ ((j : ℕ) × (j < m)
                × (bundle_at (peer_queue_bundle_tx p index priority).0 k ≡ bundle_at p j)))
peer_queue_bundle_tx_drops p index priority m v new e low = (
  omega (arith, s.len, place),
  accepted p index priority new (omega (arith, v.room, place)),
  rw (written p index priority new (omega (arith, v.room, place))) (
      get_or-set_ne (set shifted i index) (10 + i) 20 priority 0 (omega (arith, v.room, place))
      ∙ get_or-set_ne shifted i 20 index 0 (omega (arith, v.room, place))
      ∙ kept_overflow p.words v.size i p.tx_queue_len v.room),
  entry,
)
  where
    i : ℕ
    i = point p priority

    shifted : List ℕ
    shifted = shift_down i p.tx_queue_len p.words

    place : i ≤ m
    place = elim (dec_lt m i) [
      | yes h ↦ absurd (
          omega (
            arith,
            before_insertion_point priority (queued_priorities p) m h,
            get_or-queued_priorities p m (omega arith),
          ))
      | no h ↦ omega arith
    ]

    s : IsInserted p (peer_queue_bundle_tx p index priority).0 i index priority
    s = peer_queue_bundle_tx-IsInserted p index priority v new (omega (arith, v.room, place))

    entry :
        (k : ℕ)
        → k < p.tx_queue_len
        → (bundle_at (peer_queue_bundle_tx p index priority).0 k ≡ index)
          ⊎ ((j : ℕ) × (j < m)
              × (bundle_at (peer_queue_bundle_tx p index priority).0 k ≡ bundle_at p j))
    entry k h = elim (dec_lt k i) [
      | yes a ↦ inr (k, omega (arith, place), (s.before k a).0)
      | no a ↦ elim (ℕ_discrete k i) [
        | yes b ↦ inl (ap (λ j. bundle_at (peer_queue_bundle_tx p index priority).0 j) b ∙ s.here.0)
        | no b ↦ inr (
          k - 1,
          omega arith,
          ap (λ j. bundle_at (peer_queue_bundle_tx p index priority).0 j) (pred_lem k (omega arith))
              ∙ (s.behind (k - 1) (omega arith) (omega arith)).0,
        )
      ]
    ]
