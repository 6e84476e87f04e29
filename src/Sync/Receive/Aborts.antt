-- ===== src/Sync/Receive/Aborts.antt =====
-- src/sync/sync.c: a record that makes `recv_key` fail an assertion.
use lbard.Prelude.{
  ℕ, zero, suc, ◌+◌, ◌-◌, ◌≤◌, ◌<◌, [], ◌∷◌, ◌≡◌, refl, ap, ◌∙◌, Bool, true, false, ltb, leb, ◌==◌,
  ◌&&◌, ◌||◌, if◌then◌else◌, none, arith,
}
use lbard.Sync.Tree.{Tree, Node, KeyMessage, empty, node, child_index}
use lbard.Sync.Tree.Search.{cmp_message}
use lbard.Sync.Receive.{
  Outcome, aborted, nowhere, readable, Scan, unreadable, differs_at, scanned, scan_from,
  remove_differences,
}
use lbard.Sync.Receive.Record.{after_scan, recv_from, recv_known, recv_into, recv_key_calls}
use lbard.Sync.Receive.Calls.{assertion_failed, finished, recv_key}
use lbard.Sync.Receive.Searches.{if_both, if_yes, if_no, readable_below}

scan_round :
    (t a b r : Bool) (p : ℕ) (rest : Scan)
    → t ≡ true
    → a ≡ b
    → (r ≡ true → rest ≡ unreadable)
    → (if t
        then if a
          then if b then if r then rest else unreadable else differs_at p
          else if b
          then differs_at p
          else if r
          then rest
          else unreadable
        else scanned p)
      ≡ unreadable
scan_round false a b r p rest e f g = absurd (ground arith)
scan_round true true true true p rest e f g = g refl
scan_round true true true false p rest e f g = refl
scan_round true false false true p rest e f g = g refl
scan_round true false false false p rest e f g = refl
scan_round true true false r p rest e f g = absurd (ground arith)
scan_round true false true r p rest e f g = absurd (ground arith)

module _ (n : Node) (message : KeyMessage) (full : n.message.prefix_len ≡ 64)
    (long : 63 ≤ message.prefix_len)
    (alike : (i : ℕ) → i < 63 → child_index i message.key ≡ child_index i n.message.key) where
  scan_from-unreadable :
      (rounds p : ℕ)
      → p + rounds ≡ message.prefix_len
      → p < 63
      → scan_from rounds p n message ≡ unreadable
  unfolding scan_from readable
  scan_from-unreadable zero p e hp = absurd (omega arith)
  scan_from-unreadable (suc rounds) p e hp =
      scan_round (ltb p n.message.prefix_len && ltb p message.prefix_len)
        (child_index p message.key) (child_index p n.message.key) (readable (p + 1)) p
        (scan_from rounds (p + 1) n message) (ground arith) (alike p hp)
        (λ r. scan_from-unreadable rounds (p + 1) (omega arith) (ground arith))

abbrev Stops : Outcome → Type 0
Stops o = o ≡ aborted

stopped :
    (n : Node) (left right : Tree) (message : KeyMessage) (below : Outcome) (s : Scan)
    → s ≡ unreadable
    → after_scan message message none [] n left right below s ≡ aborted
unfolding after_scan
stopped n left right message below s e =
    ap (after_scan message message none [] n left right below) e

recv_from-aborted :
    (n : Node) (left right : Tree) (message : KeyMessage)
    → n.message.prefix_len ≡ 64
    → 63 ≤ message.prefix_len
    → ((i : ℕ) → i < 63 → child_index i message.key ≡ child_index i n.message.key)
    → cmp_message message n.message ≡ false
    → recv_from message message none 0 [] [] (node n left right) ≡ aborted
unfolding recv_from
recv_from-aborted n left right message full long alike other =
    let scan = scan_from (message.prefix_len - 0) 0 n message in
    let stuck : scan ≡ unreadable =
      scan_from-unreadable n message full long alike (message.prefix_len - 0) 0 (omega arith)
        (omega arith) in
    let below : Outcome = elim (child_index n.message.prefix_len message.key) [
      | false ↦ recv_from message message none (n.message.prefix_len + 1) [] (false ∷ []) left
      | true ↦ recv_from message message none (n.message.prefix_len + 1) [] (true ∷ []) right
    ] in
    if_no Stops (cmp_message message n.message) _ _ other (
      if_no Stops (cmp_message message n.message) _ _ other (
        if_no Stops (leb message.prefix_len 0) _ _ (ground arith) (
          if_yes Stops (readable 0) (after_scan message message none [] n left right below scan)
            aborted (readable_below 0 (omega arith))
            (stopped n left right message below scan stuck))))

calls-aborted :
    (n : Node) (left right : Tree) (message : KeyMessage)
    → n.message.prefix_len ≡ 64
    → 63 ≤ message.prefix_len
    → message.prefix_len ≤ 64
    → message.min_prefix_len ≤ message.prefix_len
    → ((i : ℕ) → i < 63 → child_index i message.key ≡ child_index i n.message.key)
    → cmp_message message n.message ≡ false
    → recv_key_calls (node n left right) empty message ≡ aborted
unfolding recv_key_calls recv_into recv_known remove_differences
calls-aborted n left right message full long short le alike other =
    if_no Stops (ltb message.prefix_len message.min_prefix_len || ltb 65 message.prefix_len) _ _
      (ground arith)
      (if_no Stops (message.prefix_len == 65) _ _ (ground arith) (
        ap (recv_known (node n left right) message)
          (if_both (λ r. r ≡ nowhere) message.stored nowhere nowhere refl refl)
        ∙ recv_from-aborted n left right message full long alike other))

-- A record of a prefix of 63 or 64 bits that a node's only key begins with, but that is not
-- equal to it for `cmp_message`, fails the assertion of `sync_get_bits`, when the peer has no tree.
pub recv_key-aborted :
    (n : Node) (left right : Tree) (message : KeyMessage)
    → n.message.prefix_len ≡ 64
    → 63 ≤ message.prefix_len
    → message.prefix_len ≤ 64
    → message.min_prefix_len ≤ message.prefix_len
    → ((i : ℕ) → i < 63 → child_index i message.key ≡ child_index i n.message.key)
    → cmp_message message n.message ≡ false
    → recv_key (node n left right) empty message ≡ assertion_failed
unfolding recv_key finished
recv_key-aborted n left right message full long short le alike other =
    ap (finished (node n left right) empty)
      (calls-aborted n left right message full long short le alike other)
