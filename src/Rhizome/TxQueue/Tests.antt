-- ===== src/Rhizome/TxQueue/Tests.antt =====
-- Runs of the transmission queue, and each theorem about it at an input.
use lbard.Prelude.{
  ℕ, zero, suc, ◌<◌, ◌∷◌, ◌++◌, ◌≡◌, refl, ◌⊎◌, ◌≢◌, arith, false, some, replicate, get_or,
}
use lbard.Rhizome.TxQueue.{
  Peer, bcopy, is_queued, insertion_point, shift_down, peer_queue_bundle_tx, queue_index,
  delete_entry, sync_dequeue_bundle, overflow_at,
}
use lbard.Rhizome.TxQueue.Place.{IsQueue, IsOrdered, bundle_at, priority_at}
use lbard.Rhizome.TxQueue.Insert.{IsInserted, peer_queue_bundle_tx-IsInserted}
use lbard.Rhizome.TxQueue.Ordered.{peer_queue_bundle_tx-IsOrdered}
use lbard.Rhizome.TxQueue.Drops.{peer_queue_bundle_tx_drops}
use lbard.Rhizome.TxQueue.Delete.{
  IsDeleted, sync_dequeue_bundle_next, sync_dequeue_bundle_queued, sync_dequeue_bundle_overruns,
}

program : Unit {0}
unfolding bcopy is_queued insertion_point shift_down peer_queue_bundle_tx queue_index delete_entry
    sync_dequeue_bundle
program = tt

-- Bundles 7, 8 and 9 are queued, bundle 3 is being sent.
abbrev three : Peer
three = record {
  tx_bundle = some 3;
  tx_bundle_priority = 90;
  tx_bundle_manifest_offset = 64;
  tx_bundle_body_offset = 128;
  manifest_offset_hard_lower_bound = 0;
  body_offset_hard_lower_bound = 0;
  tx_queue_len = 3;
  words = 7 ∷ 8 ∷ 9 ∷ (replicate 7 0 ++ (50 ∷ 40 ∷ 30 ∷ replicate 19 0));
  instance_id = 1;
}

abbrev full : Peer
full = record three {
  tx_queue_len = 10;
  words =
      10
      ∷ 11
      ∷ 12
      ∷ 13
      ∷ 14
      ∷ 15
      ∷ 16
      ∷ 17
      ∷ 18
      ∷ 19
      ∷ 99
      ∷ 88
      ∷ 77
      ∷ 66
      ∷ 55
      ∷ 44
      ∷ 33
      ∷ 22
      ∷ 11
      ∷ 5
      ∷ 0
      ∷ 3
      ∷ replicate 10 0;
}

-- Bundle 4 takes the place of bundle 9, though seven places are free.
dropped :
    (peer_queue_bundle_tx three 4 45).0.words
    ≡ 7 ∷ 4 ∷ 8 ∷ (replicate 7 0 ++ (50 ∷ 45 ∷ 40 ∷ replicate 19 0))
unfolding program
dropped = refl

appended : (peer_queue_bundle_tx three 4 20).0.tx_queue_len ≡ 4
unfolding program
appended = refl

three-IsQueue : IsQueue three
three-IsQueue = record { size = refl; room = omega arith }

full-IsQueue : IsQueue full
full-IsQueue = record { size = refl; room = omega arith }

three-IsOrdered : IsOrdered three
three-IsOrdered zero h = omega arith
three-IsOrdered (suc zero) h = omega arith
three-IsOrdered (suc (suc k)) h = absurd (omega arith)

peer_queue_bundle_tx-IsInserted_example :
    IsInserted three (peer_queue_bundle_tx three 4 45).0 1 4 45
unfolding program
peer_queue_bundle_tx-IsInserted_example =
    peer_queue_bundle_tx-IsInserted three 4 45 three-IsQueue refl (omega arith)

peer_queue_bundle_tx-IsOrdered_example :
    IsQueue (peer_queue_bundle_tx three 4 45).0 × IsOrdered (peer_queue_bundle_tx three 4 45).0
peer_queue_bundle_tx-IsOrdered_example =
    peer_queue_bundle_tx-IsOrdered three 4 45 three-IsQueue three-IsOrdered

peer_queue_bundle_tx_drops_example :
    ((peer_queue_bundle_tx three 4 45).0.tx_queue_len ≡ 3)
    × ((peer_queue_bundle_tx three 4 45).1 ≡ false)
    × (get_or (peer_queue_bundle_tx three 4 45).0.words overflow_at 0
        ≡ get_or three.words overflow_at 0)
    × ((k : ℕ)
        → k < 3
        → (bundle_at (peer_queue_bundle_tx three 4 45).0 k ≡ 4)
          ⊎ ((j : ℕ) × (j < 2)
              × (bundle_at (peer_queue_bundle_tx three 4 45).0 k ≡ bundle_at three j)))
unfolding program
peer_queue_bundle_tx_drops_example =
    peer_queue_bundle_tx_drops three 4 45 2 three-IsQueue refl refl (omega arith)

sync_dequeue_bundle_next_example :
    ((sync_dequeue_bundle three 3 1).0.tx_bundle ≡ some 7)
    × ((sync_dequeue_bundle three 3 1).0.tx_bundle_priority ≡ 50)
    × ((sync_dequeue_bundle three 3 1).0.tx_bundle_manifest_offset ≡ 0)
    × ((sync_dequeue_bundle three 3 1).0.tx_bundle_body_offset ≡ 0)
    × IsDeleted three (sync_dequeue_bundle three 3 1).0 0
sync_dequeue_bundle_next_example =
    sync_dequeue_bundle_next three 3 1 three-IsQueue refl (omega arith)

first_is_other : (k : ℕ) → k < 1 → bundle_at three k ≢ 8
first_is_other zero h e = omega arith
first_is_other (suc k) h e = omega arith

sync_dequeue_bundle_queued_example : IsDeleted three (sync_dequeue_bundle three 8 1).0 1
unfolding program
sync_dequeue_bundle_queued_example =
    sync_dequeue_bundle_queued three 8 1 1 three-IsQueue refl (omega arith) refl
      (λ k h. first_is_other k h) (omega arith)

sync_dequeue_bundle_overruns_example :
    (priority_at (sync_dequeue_bundle full 14 1).0 0 ≡ 88)
    × (get_or (sync_dequeue_bundle full 14 1).0.words overflow_at 0 ≡ 3)
unfolding program
sync_dequeue_bundle_overruns_example =
    sync_dequeue_bundle_overruns full 14 1 4 full-IsQueue refl refl refl (omega arith)
