-- ===== src/Rhizome/TxQueue.antt =====
-- src/rhizome/peers.c, `peer_queue_bundle_tx`, and src/sync/bundle_tree.c, `sync_dequeue_bundle`:
-- the bundles that are to be sent to a peer.
mod Memory
pub mod Place
pub mod Insert
pub mod Ordered
pub mod Drops
mod Moved
pub mod Delete
mod Tests
use lbard.Prelude.{
  ℕ, zero, suc, ◌+◌, ◌-◌, ◌*◌, ◌/◌, ◌%◌, ◌^◌, List, [], ◌∷◌, ◌++◌, Option, none, some, Bool, true,
  false, ltb, leb, ◌==◌, ◌||◌, if◌then◌else◌, take, drop, set, get_or,
}

abbrev pub max_txqueue_len : ℕ
max_txqueue_len = 10

-- `struct peer_state` from `tx_bundle` on. `tx_bundle` is `none` where it is -1. `words` is the
-- memory from `tx_queue_bundles` to the end of the struct, in words of 32 bits: 0 to 9 are
-- `tx_queue_bundles`, 10 to 19 `tx_queue_priorities`, 20 `tx_queue_overflow`, 21
-- `request_bitmap_bundle`, 22 `request_bitmap_offset`, 23 to 30 `request_bitmap`, and the low half
-- of 31 `request_manifest_bitmap`. It is one memory because `sync_dequeue_bundle` copies more
-- bytes than the queue has.
pub record Peer : Type 0 where
  pub tx_bundle : Option ℕ
  pub tx_bundle_priority : ℕ
  pub tx_bundle_manifest_offset : ℕ
  pub tx_bundle_body_offset : ℕ
  pub manifest_offset_hard_lower_bound : ℕ
  pub body_offset_hard_lower_bound : ℕ
  pub tx_queue_len : ℕ
  pub words : List ℕ
  pub instance_id : ℕ

abbrev pub priorities_at : ℕ
priorities_at = 10

abbrev pub overflow_at : ℕ
overflow_at = 20

-- The used entries of the two arrays.
abbrev pub queued_bundles : Peer → List ℕ
queued_bundles p = take p.tx_queue_len p.words

abbrev pub queued_priorities : Peer → List ℕ
queued_priorities p = take p.tx_queue_len (drop priorities_at p.words)

-- The low `r` bytes of `word` replaced by those of `other` (least significant byte first).
abbrev pub splice : ℕ → ℕ → ℕ → ℕ
splice r word other = word / 2 ^ (8 * r) * 2 ^ (8 * r) + other % 2 ^ (8 * r)

-- `bcopy` of `n` bytes from the word `src` to the word `dst`; the two may overlap.
pub bcopy : List ℕ → ℕ → ℕ → ℕ → List ℕ
bcopy words src dst n =
    let q = n / 4 in
    let r = n % 4 in
    take dst words
    ++ (take q (drop src words)
        ++ (if r == 0
            then drop (dst + q) words
            else splice r (get_or words (dst + q) 0) (get_or words (src + q) 0)
              ∷ drop (dst + q + 1) words))

-- "Don't queue if already in the queue".
pub is_queued : ℕ → List ℕ → Bool
is_queued index [] = false
is_queued index (b ∷ rest) = b == index || is_queued index rest

-- "Find point of insertion": the first entry of a lower priority, or the end.
pub insertion_point : ℕ → List ℕ → ℕ
insertion_point priority [] = 0
insertion_point priority (x ∷ rest) =
    let further = insertion_point priority rest in if ltb x priority then 0 else suc further

-- "Shift rest of list down": `i<(p->tx_queue_len-1)` and `p->tx_queue_len-i-1` words.
pub shift_down : ℕ → ℕ → List ℕ → List ℕ
unfolding bcopy
shift_down i len words =
    if ltb (i + 1) len
    then bcopy (bcopy words (priorities_at + i) (priorities_at + (i + 1)) (4 * (len - i - 1))) i
        (i + 1) (4 * (len - i - 1))
    else words

-- The peer, and whether the bundle is refused (the return value -1).
pub peer_queue_bundle_tx : Peer → ℕ → ℕ → Peer × Bool
unfolding is_queued insertion_point shift_down
peer_queue_bundle_tx p index priority =
    let i = insertion_point priority (queued_priorities p) in
    if is_queued index (queued_bundles p)
    then (p, false)
    else if ltb i max_txqueue_len
    then (
      record p {
        words =
            set (set (shift_down i p.tx_queue_len p.words) i index) (priorities_at + i) priority;
        tx_queue_len = if leb p.tx_queue_len i then i + 1 else p.tx_queue_len;
      },
      false,
    )
    else (record p { words = set p.words overflow_at 1 }, true)

-- The position of a bundle in the queue.
pub queue_index : ℕ → List ℕ → Option ℕ
queue_index bundle [] = none
queue_index bundle (b ∷ rest) =
    let further = queue_index bundle rest in
    if bundle == b then some 0 else elim further [ none ↦ none | some i ↦ some (suc i) ]

-- The two copies that delete entry `i`, each of `n` bytes.
pub delete_entry : ℕ → ℕ → List ℕ → List ℕ
unfolding bcopy
delete_entry i n words =
    bcopy (bcopy words (i + 1) i n) (priorities_at + (i + 1)) (priorities_at + i) n

-- `sync_dequeue_bundle`, for a peer that is in `peer_records`. `new_instance_id` is what the loop
-- over `urandombytes` ends with. The result is the peer, and the new `my_instance_id` if it is set.
pub sync_dequeue_bundle : Peer → ℕ → ℕ → Peer × Option ℕ
unfolding delete_entry queue_index
sync_dequeue_bundle p bundle new_instance_id =
    if elim p.tx_bundle [ none ↦ false | some b ↦ bundle == b ]
    then if p.tx_queue_len == 0
      then if get_or p.words overflow_at 0 == 0
        then (record p { tx_bundle = none }, none)
        else (record p { tx_bundle = none; instance_id = 0xffffffff }, some new_instance_id)
      else (
        record p {
          tx_bundle = some (get_or p.words 0 0);
          tx_bundle_priority = get_or p.words priorities_at 0;
          tx_bundle_manifest_offset = 0;
          tx_bundle_body_offset = 0;
          manifest_offset_hard_lower_bound = 0;
          body_offset_hard_lower_bound = 0;
          words = delete_entry 0 (4 * p.tx_queue_len - 1) p.words;
          tx_queue_len = p.tx_queue_len - 1;
        },
        none,
      )
    else elim (queue_index bundle (queued_bundles p)) [
      | none ↦ (p, none)
      | some i ↦ (
        record p {
          words = delete_entry i (4 * p.tx_queue_len - i - 1) p.words;
          tx_queue_len = p.tx_queue_len - 1;
        },
        none,
      )
    ]
