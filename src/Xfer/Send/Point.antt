-- ===== src/Xfer/Send/Point.antt =====
-- `peer_update_send_point`: what is sent next is missing, and lies in the body.
use lbard.Prelude.{
  ℕ, ◌+◌, ◌*◌, ◌%◌, max, ◌<◌, List, ◌≡◌, Bool, true, false, not, arith, ◌≢◌, length, get_or, ◌⊎◌,
  inl, inr, ℕ_discrete,
}
use native.Mathlib.Nat.{mod-lt}
use lbard.Xfer.Bits.{test_bit}
use lbard.Xfer.Send.{
  SendState, same_bundle, manifest_bit, bit_limit, read_bit, max_bit, send_candidates,
  manifest_candidates, peer_update_send_point,
}
use lbard.Xfer.Send.Candidates.{
  All-get_or, Passes, collect-Passes, not-true, collect_none, none_left,
}

module _ (beyond : ℕ → Bool) (body_len random random_manifest : ℕ) (p : SendState)
    (same : same_bundle p.request_bitmap_bundle p.tx_bundle ≡ true) where
  abbrev bits : ℕ
  bits = max_bit body_len p.request_bitmap_offset

  abbrev body : List ℕ
  body = send_candidates (read_bit p.bitmaps beyond) p.request_bitmap_offset bits

  abbrev after : SendState
  after = peer_update_send_point beyond body_len random random_manifest p

  body_end :
      length body ≡ 0
      → after.tx_bundle_body_offset
        ≡ max p.tx_bundle_body_offset (p.request_bitmap_offset + bit_limit)
  unfolding peer_update_send_point
  body_end h = rw (same) (ground arith)

  manifest_point :
      0 < length (manifest_candidates p.bitmaps)
      → after.tx_bundle_manifest_offset
        ≡ get_or
            (manifest_candidates p.bitmaps)
            (random_manifest % length (manifest_candidates p.bitmaps))
            0
          * 64
  unfolding peer_update_send_point
  manifest_point h = rw (same) (ground arith)

  manifest_end : length (manifest_candidates p.bitmaps) ≡ 0 → after.tx_bundle_manifest_offset ≡ 1024
  unfolding peer_update_send_point
  manifest_end h = rw (same) (ground arith)

-- The bitmap is for the bundle that is being sent, and every block of the body is marked. Then the
-- body is not gone on with before the end of the region that a bitmap may cover.
pub peer_update_send_point_all :
    (beyond : ℕ → Bool) (body_len random random_manifest : ℕ) (p : SendState)
    → same_bundle p.request_bitmap_bundle p.tx_bundle ≡ true
    → ((i : ℕ) → i < max_bit body_len p.request_bitmap_offset → read_bit p.bitmaps beyond i ≡ true)
    → (peer_update_send_point beyond body_len random random_manifest p).tx_bundle_body_offset
      ≡ max p.tx_bundle_body_offset (p.request_bitmap_offset + bit_limit)
peer_update_send_point_all beyond body_len random random_manifest p same h =
    body_end beyond body_len random random_manifest p same (
      none_left (read_bit p.bitmaps beyond) p.request_bitmap_offset
        (max_bit body_len p.request_bitmap_offset) h)

-- The manifest is gone on with at a block that is not marked, if there is one, and else is done
-- with, which the offset 1024 says.
pub peer_update_send_point_manifest :
    (beyond : ℕ → Bool) (body_len random random_manifest : ℕ) (p : SendState)
    → same_bundle p.request_bitmap_bundle p.tx_bundle ≡ true
    → ((k : ℕ) × (k < 16)
        × (test_bit p.bitmaps (manifest_bit k) ≡ false)
        × ((peer_update_send_point beyond body_len random random_manifest
              p).tx_bundle_manifest_offset
            ≡ k * 64))
      ⊎ (((k : ℕ) → k < 16 → test_bit p.bitmaps (manifest_bit k) ≡ true)
          × ((peer_update_send_point beyond body_len random random_manifest
                p).tx_bundle_manifest_offset
              ≡ 1024))
unfolding manifest_candidates
peer_update_send_point_manifest beyond body_len random random_manifest p same =
    elim (ℕ_discrete (length (manifest_candidates p.bitmaps)) 0) [
      | yes h ↦ inr (
        λ k a. collect_none (λ j. test_bit p.bitmaps (manifest_bit j)) 16 k a h,
        manifest_end beyond body_len random random_manifest p same h,
      )
      | no h ↦ inl (
        get_or list chosen 0,
        (good h).1,
        not-true _ (good h).0,
        manifest_point beyond body_len random random_manifest p same (omega arith),
      )
    ]
  where
    list : List ℕ
    list = manifest_candidates p.bitmaps

    chosen : ℕ
    chosen = random_manifest % length list

    good :
        length list ≢ 0
        → Passes (λ j. not (test_bit p.bitmaps (manifest_bit j))) 16 (get_or list chosen 0)
    good h =
        All-get_or _ list chosen 0
          (collect-Passes (λ j. not (test_bit p.bitmaps (manifest_bit j))) 1 0 16 16
            (λ k a. omega arith))
          (mod-lt random_manifest (omega arith))
