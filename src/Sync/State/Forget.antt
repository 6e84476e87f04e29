-- ===== src/Sync/State/Forget.antt =====
-- src/sync/sync.c: what `sync_add_key` does to the trees of the peers.
use lbard.Prelude.{
  ℕ, ◌+◌, ◌-◌, ◌%◌, ◌^◌, List, [], ◌∷◌, some, ◌≡◌, ◌⊎◌, inl, inr, refl, ap, ◌∙◌, true, All, ◌>>=◌,
}
use mathlib.Core.Option
use lbard.Sync.Tree.Xor.{IsKey}
use lbard.Sync.Tree.Leaves.{leaves, Inserted}
use lbard.Sync.Tree.Invariant.{IsRoot}
use lbard.Sync.Tree.Remove.Members.{Among}
use lbard.Sync.Tree.Remove.Loop.{remove_key-IsRoot}
use lbard.Sync.Tree.Search.{
  Search, failed, missing, found, find_message, message_from_key, is_found, sync_key_exists,
}
use lbard.Sync.Tree.Search.Answers.{Answers, find_message-Answers}
use lbard.Sync.State.{Peer, forget_found, forget, forget_all}

-- A peer whose tree keeps the invariant, and reports the key only if it is the key of a leaf.
pub record IsHonest (key : List ℕ) (peer : Peer) : Type 0 where
  pub tree : IsRoot peer.root
  pub honest : sync_key_exists peer.root key ≡ true → Among key (leaves peer.root)

-- The peer afterwards: one key less and one received key less to count, or as it was.
pub record HasForgotten (key : List ℕ) (peer peer' : Peer) : Type 0 where
  pub same_peer : peer'.peer_context ≡ peer.peer_context
  pub same_sends : peer'.send_count ≡ peer.send_count
  pub tree : IsRoot peer'.root
  pub change :
      (Inserted key (leaves peer'.root) (leaves peer.root)
        × (peer'.recv_count ≡ (peer.recv_count + (2 ^ 32 - 1)) % 2 ^ 32))
      ⊎ ((peer' ≡ peer) × (Among key (leaves peer.root) → ⊥))

unfoldable pub AllForgotten : List ℕ → List Peer → List Peer → Type 0
AllForgotten key [] [] = Unit
AllForgotten key [] (p ∷ peers') = ⊥
AllForgotten key (p ∷ peers) [] = ⊥
AllForgotten key (p ∷ peers) (p' ∷ peers') = HasForgotten key p p' × AllForgotten key peers peers'

module _ (key : List ℕ) where
  forget_cases :
      (peer : Peer) (s : Search)
      → IsRoot peer.root
      → Answers key peer.root s
      → (is_found s ≡ true → Among key (leaves peer.root))
      → (peer' : Peer) × (forget_found key peer s ≡ some peer') × HasForgotten key peer peer'
  unfolding forget_found Answers is_found
  forget_cases peer failed h a honest = absurd a
  forget_cases peer missing h a honest =
      (peer, refl, record { same_peer = refl; same_sends = refl; tree = h; change = inr (refl, a) })
  forget_cases peer (found path) h a honest =
      let (t, e, tree, ins) = remove_key-IsRoot peer.root key h (honest refl) in
      (
        record peer { root = t; recv_count = (peer.recv_count + (2 ^ 32 - 1)) % 2 ^ 32 },
        ap
            (Option.map (λ root. record peer {
              root = root;
              recv_count = (peer.recv_count + (2 ^ 32 - 1)) % 2 ^ 32;
            }))
            e,
        record { same_peer = refl; same_sends = refl; tree = tree; change = inl (ins, refl) },
      )

  forget_one :
      (peer : Peer)
      → IsKey key
      → IsHonest key peer
      → (peer' : Peer) × (forget key peer ≡ some peer') × HasForgotten key peer peer'
  unfolding forget sync_key_exists
  forget_one peer k h =
      forget_cases peer (find_message peer.root (message_from_key key)) h.tree
        (find_message-Answers peer.root key h.tree k) h.honest

  pub forget_all-AllForgotten :
      (peers : List Peer)
      → IsKey key
      → All (IsHonest key) peers
      → (peers' : List Peer) × (forget_all key peers ≡ some peers') × AllForgotten key peers peers'
  unfolding forget_all AllForgotten
  forget_all-AllForgotten [] k h = ([], refl, tt)
  forget_all-AllForgotten (peer ∷ peers) k h =
      let (p, e, a) = forget_one peer k h.0 in
      let (ps, f, b) = forget_all-AllForgotten peers k h.1 in
      (
        p ∷ ps,
        ap (λ o. o >>= λ q. forget_all key peers >>= λ qs. some (q ∷ qs)) e
            ∙ ap (λ o. o >>= λ qs. some (p ∷ qs)) f,
        (a, b),
      )
