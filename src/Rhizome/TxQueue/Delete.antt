-- ===== src/Rhizome/TxQueue/Delete.antt =====
-- `sync_dequeue_bundle`: the next bundle in the queue, and the deletion of an entry.
use lbard.Prelude.{
  ℕ, zero, suc, ◌+◌, ◌-◌, ◌*◌, ◌≤◌, ◌<◌, List, [], ◌∷◌, ◌≡◌, refl, none, some, Bool, false, ◌==◌,
  get_or, take, length, length-take, arith, ◌≢◌, ◌∙◌, sym,
}
use lbard.Rhizome.TxQueue.{
  Peer, queued_bundles, delete_entry, queue_index, sync_dequeue_bundle, overflow_at, priorities_at,
}
use lbard.Rhizome.TxQueue.Place.{IsQueue, bundle_at, priority_at}
use lbard.Rhizome.TxQueue.Moved.{moved_first, moved_second, kept_low, kept_priority}

-- The queue without entry `i`: the entries before it stay, those behind it move up by one.
pub record IsDeleted (p q : Peer) (i : ℕ) : Type 0 where
  pub len : suc q.tx_queue_len ≡ p.tx_queue_len
  pub before :
      (k : ℕ) → k < i → (bundle_at q k ≡ bundle_at p k) × (priority_at q k ≡ priority_at p k)
  pub behind :
      (k : ℕ)
      → i ≤ k
      → k < q.tx_queue_len
      → (bundle_at q k ≡ bundle_at p (suc k)) × (priority_at q k ≡ priority_at p (suc k))

next_lem :
    (p : Peer) (bundle id : ℕ)
    → p.tx_bundle ≡ some bundle
    → 0 < p.tx_queue_len
    → (sync_dequeue_bundle p bundle id).0 ≡ record p {
      tx_bundle = some (get_or p.words 0 0);
      tx_bundle_priority = get_or p.words priorities_at 0;
      tx_bundle_manifest_offset = 0;
      tx_bundle_body_offset = 0;
      manifest_offset_hard_lower_bound = 0;
      body_offset_hard_lower_bound = 0;
      words = delete_entry 0 (4 * p.tx_queue_len - 1) p.words;
      tx_queue_len = p.tx_queue_len - 1;
    }
unfolding sync_dequeue_bundle
next_lem p bundle id e h = ground arith

-- When the bundle that is being sent is done with and others are queued, the first of them is
-- sent next, from its start, and exactly the others stay queued.
pub sync_dequeue_bundle_next :
    (p : Peer) (bundle id : ℕ)
    → IsQueue p
    → p.tx_bundle ≡ some bundle
    → 0 < p.tx_queue_len
    → ((sync_dequeue_bundle p bundle id).0.tx_bundle ≡ some (bundle_at p 0))
      × ((sync_dequeue_bundle p bundle id).0.tx_bundle_priority ≡ priority_at p 0)
      × ((sync_dequeue_bundle p bundle id).0.tx_bundle_manifest_offset ≡ 0)
      × ((sync_dequeue_bundle p bundle id).0.tx_bundle_body_offset ≡ 0)
      × IsDeleted p (sync_dequeue_bundle p bundle id).0 0
sync_dequeue_bundle_next p bundle id v e h = rw (next_lem p bundle id e h) (
  refl,
  refl,
  refl,
  refl,
  record {
    len = omega arith;
    before = λ k a. absurd (omega arith);
    behind = λ k a b. (
      moved_first p.words v.size 0 n (omega arith) (omega (arith, v.room)) k (suc k) a
          (omega (arith, v.room)) refl (omega (arith, v.room)),
      moved_second p.words v.size 0 n (omega arith) (omega (arith, v.room)) (10 + k) (10 + suc k)
          (omega arith) (omega (arith, v.room)) (omega arith) (omega (arith, v.room)),
    );
  },
)
  where
    n : ℕ
    n = 4 * p.tx_queue_len - 1

abbrev is_sending : Peer → ℕ → Bool
is_sending p bundle = elim p.tx_bundle [ none ↦ false | some b ↦ bundle == b ]

delete_lem :
    (p : Peer) (bundle id i : ℕ)
    → is_sending p bundle ≡ false
    → queue_index bundle (queued_bundles p) ≡ some i
    → (sync_dequeue_bundle p bundle id).0 ≡ record p {
      words = delete_entry i (4 * p.tx_queue_len - i - 1) p.words;
      tx_queue_len = p.tx_queue_len - 1;
    }
unfolding sync_dequeue_bundle
delete_lem p bundle id i s e = rw (s, e) refl

queue_index-lt : (b : ℕ) (l : List ℕ) (i : ℕ) → queue_index b l ≡ some i → i < length l
unfolding queue_index
queue_index-lt b [] i h = cc
queue_index-lt b (x ∷ l) zero h = omega arith
queue_index-lt b (x ∷ l) (suc i) h = ground (arith, queue_index-lt b l i)

queue_index_first :
    (b : ℕ) (l : List ℕ) (i : ℕ)
    → i < length l
    → get_or l i 0 ≡ b
    → ((k : ℕ) → k < i → get_or l k 0 ≢ b)
    → queue_index b l ≡ some i
unfolding queue_index
queue_index_first b [] i h e none_before = absurd (omega arith)
queue_index_first b (x ∷ l) zero h e none_before = ground arith
queue_index_first b (x ∷ l) (suc i) h e none_before = ground (
  arith,
  none_before 0 (omega arith),
  queue_index_first b l i (omega arith) e (λ k q. none_before (suc k) (omega arith)),
)

get_or-take : (n : ℕ) (l : List ℕ) (k : ℕ) → k < n → get_or (take n l) k 0 ≡ get_or l k 0
get_or-take zero l k h = absurd (omega arith)
get_or-take (suc n) [] k h = refl
get_or-take (suc n) (x ∷ l) zero h = refl
get_or-take (suc n) (x ∷ l) (suc k) h = get_or-take n l k (omega arith)

-- The search finds the entry that is the first to hold the bundle.
queue_index-queued :
    (p : Peer) (bundle i : ℕ)
    → IsQueue p
    → i < p.tx_queue_len
    → bundle_at p i ≡ bundle
    → ((k : ℕ) → k < i → bundle_at p k ≢ bundle)
    → queue_index bundle (queued_bundles p) ≡ some i
queue_index-queued p bundle i v h e none_before =
    queue_index_first bundle (queued_bundles p) i
      (omega (arith, length-take p.tx_queue_len p.words, v.size, v.room))
      (get_or-take p.tx_queue_len p.words i h ∙ e)
      (λ k q f.
        none_before k q (sym (get_or-take p.tx_queue_len p.words k (omega (arith, h, q))) ∙ f))

-- The bundle that entry `i` of the queue holds, and no entry before it, and that is not being sent,
-- is deleted: exactly entry `i` leaves the queue, as long as the copy ends within the array.
pub sync_dequeue_bundle_queued :
    (p : Peer) (bundle id i : ℕ)
    → IsQueue p
    → is_sending p bundle ≡ false
    → i < p.tx_queue_len
    → bundle_at p i ≡ bundle
    → ((k : ℕ) → k < i → bundle_at p k ≢ bundle)
    → 4 * i + (4 * p.tx_queue_len - i - 1) ≤ 40
    → IsDeleted p (sync_dequeue_bundle p bundle id).0 i
sync_dequeue_bundle_queued p bundle id i v s place e none_before fits =
    rw (delete_lem p bundle id i s (queue_index-queued p bundle i v place e none_before)) (record {
      len = omega (arith, place);
      before = λ k a. (
        kept_low p.words v.size i n low short k a,
        kept_priority p.words v.size i n low short k fits a,
      );
      behind = λ k a b. (
        moved_first p.words v.size i n low short k (suc k) a (omega (arith, place)) refl
            (omega (arith, v.room)),
        moved_second p.words v.size i n low short (10 + k) (10 + suc k) (omega arith)
            (omega (arith, place)) (omega arith) (omega arith),
      );
    })
  where
    n : ℕ
    n = 4 * p.tx_queue_len - i - 1

    low : i < 10
    low = omega (arith, place, v.room)

    short : n ≤ 40
    short = omega (arith, v.room)

-- In a full queue the deletion of the third entry or a later one copies too much: the first
-- entry's priority is overwritten by the second's, and the overflow flag by the number of the
-- bundle that the request bitmap is for.
pub sync_dequeue_bundle_overruns :
    (p : Peer) (bundle id i : ℕ)
    → IsQueue p
    → is_sending p bundle ≡ false
    → queue_index bundle (queued_bundles p) ≡ some i
    → p.tx_queue_len ≡ 10
    → 2 ≤ i
    → (priority_at (sync_dequeue_bundle p bundle id).0 0 ≡ priority_at p 1)
      × (get_or (sync_dequeue_bundle p bundle id).0.words overflow_at 0 ≡ get_or p.words 21 0)
sync_dequeue_bundle_overruns p bundle id i v s e full late = rw (delete_lem p bundle id i s e) (
  moved_first p.words v.size i n low (omega (arith, low)) 10 11 (omega (arith, low))
      (omega (arith, low)) refl (omega arith),
  moved_second p.words v.size i n low (omega (arith, low)) 20 21 (omega (arith, low))
      (omega (arith, low)) refl (omega (arith, low)),
)
  where
    n : ℕ
    n = 4 * p.tx_queue_len - i - 1

    low : i < 10
    low =
        omega
          (arith, queue_index-lt bundle (queued_bundles p) i e, length-take p.tx_queue_len p.words)
