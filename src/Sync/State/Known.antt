-- ===== src/Sync/State/Known.antt =====
-- src/sync/sync.c: `sync_add_key` on every branch.
use lbard.Prelude.{
  ℕ, ◌+◌, ◌%◌, ◌^◌, List, some, ◌≡◌, ◌⊎◌, inl, inr, refl, ap, ◌∙◌, true, false, All, ◌>>=◌,
}
use lbard.Sync.Tree.{Tree}
use lbard.Sync.Tree.Xor.{IsKey}
use lbard.Sync.Tree.Leaves.{leaves, Inserted}
use lbard.Sync.Tree.Invariant.{IsRoot}
use lbard.Sync.Tree.Add.{add_key-IsRoot}
use lbard.Sync.Tree.Add.Descent.{Apart}
use lbard.Sync.Tree.Search.{
  Search, failed, missing, found, find_message, message_from_key, is_found, sync_key_exists,
}
use lbard.Sync.Tree.Search.Answers.{Answers, find_message-Answers}
use lbard.Sync.State.{State, Peer, store_at, forget_all, sync_add_found, sync_add_key}
use lbard.Sync.State.Stored.{leaves-store_at, store_at-IsRoot}
use lbard.Sync.State.Forget.{IsHonest, AllForgotten, forget_all-AllForgotten}

-- A key that is reported to exist changes no set of keys; any other one is put in, is counted,
-- and is taken from the peers that have it.
pub record HasAdded (key : List ℕ) (s s' : State) : Type 0 where
  pub tree : IsRoot s'.root
  pub change :
      ((sync_key_exists s.root key ≡ true)
        × (leaves s'.root ≡ leaves s.root)
        × (s'.peers ≡ s.peers)
        × (s'.key_count ≡ s.key_count))
      ⊎ ((sync_key_exists s.root key ≡ false)
          × Inserted key (leaves s.root) (leaves s'.root)
          × AllForgotten key s.peers s'.peers
          × (s'.key_count ≡ (s.key_count + 1) % 2 ^ 32))

module _ (key : List ℕ) (context : ℕ) (s : State) (k : IsKey key) (h : IsRoot s.root)
    (peers : All (IsHonest key) s.peers) where
  add_cases :
      (r : Search)
      → find_message s.root (message_from_key key) ≡ r
      → Answers key s.root r
      → (is_found r ≡ false → All (Apart key) (leaves s.root))
      → (s' : State) × (sync_add_found key context s r ≡ some s') × HasAdded key s s'
  unfolding sync_add_found Answers is_found sync_key_exists
  add_cases failed e a apart = absurd a
  add_cases (found path) e a apart = (
    record s { root = store_at path context s.root },
    refl,
    record {
      tree = store_at-IsRoot path context s.root h;
      change = inl (ap is_found e, leaves-store_at path context s.root, refl, refl);
    },
  )
  add_cases missing e a apart =
      let (t, f, tree, ins) = add_key-IsRoot s.root key context true k h (apart refl) in
      let (ps, g, forgotten) = forget_all-AllForgotten key s.peers k peers in
      let made : Tree → List Peer → State = λ t ps. record s {
        key_count = (s.key_count + 1) % 2 ^ 32;
        progress = 0;
        peers = ps;
        root = t;
      } in
      (
        made t ps,
        ap (λ o. o >>= λ u. forget_all key s.peers >>= λ qs. some (made u qs)) f
            ∙ ap (λ o. o >>= λ qs. some (made t qs)) g,
        record { tree = tree; change = inr (ap is_found e, ins, forgotten, refl) },
      )

-- `sync_add_key` ends without a failed assertion, where the trees keep the invariant, a key that
-- is not reported to exist differs from those there in one of the first 63 bits, and a peer's
-- tree reports the key only if it has it. A key that is reported leaves the keys, the count and
-- the peers as they are; another one is put into the tree and counted, and each peer loses it
-- and counts one key less to receive, if it had it, or stays as it is.
pub sync_add_key-HasAdded :
    (key : List ℕ) (context : ℕ) (s : State)
    → IsKey key
    → IsRoot s.root
    → All (IsHonest key) s.peers
    → (sync_key_exists s.root key ≡ false → All (Apart key) (leaves s.root))
    → (s' : State) × (sync_add_key s key context ≡ some s') × HasAdded key s s'
unfolding sync_add_key sync_key_exists
sync_add_key-HasAdded key context s k h peers apart =
    add_cases key context s k h peers (find_message s.root (message_from_key key)) refl
      (find_message-Answers s.root key h k) apart
