-- ===== src/Rhizome/TxQueue/Insert.antt =====
-- `peer_queue_bundle_tx`: what an insertion does to the entries.
use lbard.Prelude.{
  ℕ, suc, ◌+◌, max, ◌≤◌, ◌<◌, List, ◌≡◌, ◌≢◌, sym, ◌∙◌, true, false, leb, if◌then◌else◌, set,
  get_or, length, length-set, get_or-set_self, get_or-set_ne, arith, lt→ltb, le→ltb,
}
use lbard.Rhizome.TxQueue.{
  Peer, queued_bundles, queued_priorities, shift_down, insertion_point, is_queued,
  peer_queue_bundle_tx, max_txqueue_len, overflow_at,
}
use lbard.Rhizome.TxQueue.Place.{
  bundle_at, priority_at, IsQueue, shifted_bundle, shifted_priority, kept_bundle, kept_priority,
  length-shift_down,
}

-- The queue with an entry put at its place: the entries before it stay, those behind it move by
-- one, and the last entry goes, unless the new one is put at the end.
pub record IsInserted (p q : Peer) (i index priority : ℕ) : Type 0 where
  pub len : q.tx_queue_len ≡ max p.tx_queue_len (i + 1)
  pub here : (bundle_at q i ≡ index) × (priority_at q i ≡ priority)
  pub before :
      (k : ℕ) → k < i → (bundle_at q k ≡ bundle_at p k) × (priority_at q k ≡ priority_at p k)
  pub behind :
      (k : ℕ)
      → i ≤ k
      → suc k < p.tx_queue_len
      → (bundle_at q (suc k) ≡ bundle_at p k) × (priority_at q (suc k) ≡ priority_at p k)

abbrev pub point : Peer → ℕ → ℕ
point p priority = insertion_point priority (queued_priorities p)

pub written :
    (p : Peer) (index priority : ℕ)
    → is_queued index (queued_bundles p) ≡ false
    → point p priority < max_txqueue_len
    → (peer_queue_bundle_tx p index priority).0 ≡ record p {
      words =
          set
            (set (shift_down (point p priority) p.tx_queue_len p.words) (point p priority) index)
            (10 + point p priority)
            priority;
      tx_queue_len =
          if leb p.tx_queue_len (point p priority) then point p priority + 1 else p.tx_queue_len;
    }
unfolding peer_queue_bundle_tx
written p index priority h k = rw (h, lt→ltb _ _ k)

pub queued_already :
    (p : Peer) (index priority : ℕ)
    → is_queued index (queued_bundles p) ≡ true
    → (peer_queue_bundle_tx p index priority).0 ≡ p
unfolding peer_queue_bundle_tx
queued_already p index priority h = rw h

pub refused :
    (p : Peer) (index priority : ℕ)
    → is_queued index (queued_bundles p) ≡ false
    → max_txqueue_len ≤ point p priority
    → (peer_queue_bundle_tx p index priority).0 ≡ record p { words = set p.words overflow_at 1 }
unfolding peer_queue_bundle_tx
refused p index priority h k = rw (h, le→ltb _ _ k)

pub accepted :
    (p : Peer) (index priority : ℕ)
    → is_queued index (queued_bundles p) ≡ false
    → point p priority < max_txqueue_len
    → (peer_queue_bundle_tx p index priority).1 ≡ false
unfolding peer_queue_bundle_tx
accepted p index priority h k = rw (h, lt→ltb _ _ k)

two_sets :
    (words : List ℕ) (i k a b : ℕ)
    → k ≢ i
    → k ≢ 10 + i
    → get_or (set (set words i a) (10 + i) b) k 0 ≡ get_or words k 0
two_sets words i k a b h g =
    get_or-set_ne (set words i a) (10 + i) k b 0 (λ e. g (sym e))
    ∙ get_or-set_ne words i k a 0 (λ e. h (sym e))

-- What an insertion does, wherever the new bundle belongs.
pub peer_queue_bundle_tx-IsInserted :
    (p : Peer) (index priority : ℕ)
    → IsQueue p
    → is_queued index (queued_bundles p) ≡ false
    → insertion_point priority (queued_priorities p) < max_txqueue_len
    → IsInserted p
        (peer_queue_bundle_tx p index priority).0
        (insertion_point priority (queued_priorities p))
        index
        priority
peer_queue_bundle_tx-IsInserted p index priority v h k = rw (written p index priority h k) (record {
  len = ground arith;
  here = (
    get_or-set_ne (set shifted i index) (10 + i) i priority 0 (λ e. omega arith)
        ∙ get_or-set_self shifted i index 0 (omega (arith, fits)),
    get_or-set_self (set shifted i index) (10 + i) priority 0
        (omega (arith, fits, length-set shifted i index)),
  );
  before = λ j a. (
    two_sets shifted i j index priority (omega arith) (omega arith)
        ∙ kept_bundle p.words v.size i p.tx_queue_len v.room j (omega arith),
    two_sets shifted i (10 + j) index priority (omega arith) (omega arith)
        ∙ kept_priority p.words v.size i p.tx_queue_len v.room j (omega arith),
  );
  behind = λ j a b. (
    two_sets shifted i (suc j) index priority (omega arith) (omega arith)
        ∙ shifted_bundle p.words v.size i p.tx_queue_len v.room (suc j) j (omega arith)
            (omega arith) b (omega arith),
    two_sets shifted i (10 + suc j) index priority (omega arith) (omega arith)
        ∙ shifted_priority p.words v.size i p.tx_queue_len v.room (suc j) j (omega arith)
            (omega arith) b (omega arith),
  );
})
  where
    i : ℕ
    i = insertion_point priority (queued_priorities p)

    shifted : List ℕ
    shifted = shift_down i p.tx_queue_len p.words

    fits : length shifted ≡ 32
    fits = length-shift_down p.words v.size i p.tx_queue_len v.room
