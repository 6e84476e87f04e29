-- ===== src/Messages/Ack/Resume.antt =====
-- src/messages/ack.c: a report is understood as it was meant.
use lbard.Prelude.{
  ℕ, bit_and, zero, suc, ◌+◌, ◌*◌, ◌/◌, ◌%◌, ◌^◌, ◌<◌, ◌⊎◌, inl, inr, sym, not, Bool-cases, List,
  [], ◌∷◌, ◌≡◌, refl, ap, ◌∙◌, some, Bool, true, false, ltb, ◌==◌, ◌&&◌, ◌||◌, lt→ltb,
  if◌then◌else◌, take, drop, get_or, arith, ==_iff,
}
use mathlib.Core.Path.{subst}
use lbard.Xfer.Bits.{test_bit}
use lbard.Xfer.Send.{same_bundle}
use lbard.Messages.Piece.{le_bytes, le_value}
use lbard.Messages.Piece.Bytes.{le_value-le_bytes}
use lbard.Messages.Ack.{
  ack_type, bid_bytes, ack_message, first_missing, AckState, AckContext, body_offset_of, jumps,
  resumed_at, note_if, resume, resume_if, parse_found, sync_parse_ack,
}

not_random :
    (b t : Bool)
    → (((if b then 0x46 else 0x41) == 0x61 || (if b then 0x46 else 0x41) == 0x66) && t) ≡ false
not_random true t = refl
not_random false t = refl

same_bundle_refl : (b : ℕ) → same_bundle (some b) (some b) ≡ true
same_bundle_refl b = (==_iff b b).1 refl

both_same : (a b : ℕ) → (a == a && b == b) ≡ true
both_same a b = ground arith

-- Where the manifest is gone on with, by a bitmap of its 16 blocks of 64 bytes: at the first block
-- that is not marked, or at 1024 where all are.
pub IsFirstUnmarked : List ℕ → ℕ → Type 0
IsFirstUnmarked bitmap offset =
    ((i : ℕ) × (i < 16)
      × (test_bit bitmap i ≡ false)
      × (offset ≡ i * 64)
      × ((j : ℕ) → j < i → test_bit bitmap j ≡ true))
    ⊎ ((offset ≡ 1024) × ((j : ℕ) → j < 16 → test_bit bitmap j ≡ true))

-- The same of the blocks from `i` on.
UnmarkedFrom : List ℕ → ℕ → ℕ → ℕ → Type 0
UnmarkedFrom bitmap i rounds offset =
    ((k : ℕ) × (k < rounds)
      × (test_bit bitmap (i + k) ≡ false)
      × (offset ≡ (i + k) * 64)
      × ((j : ℕ) → j < k → test_bit bitmap (i + j) ≡ true))
    ⊎ ((offset ≡ 1024) × ((j : ℕ) → j < rounds → test_bit bitmap (i + j) ≡ true))

add_zero : (i : ℕ) → i + 0 ≡ i
add_zero i = omega arith

add_suc : (i k : ℕ) → i + suc k ≡ i + 1 + k
add_suc i k = omega arith

zero_add : (i : ℕ) → 0 + i ≡ i
zero_add i = omega arith

marked_on :
    (bitmap : List ℕ) (i count : ℕ)
    → test_bit bitmap i ≡ true
    → ((j : ℕ) → j < count → test_bit bitmap (i + 1 + j) ≡ true)
    → (j : ℕ) → j < suc count
    → test_bit bitmap (i + j) ≡ true
marked_on bitmap i count e h zero q = ap (test_bit bitmap) (add_zero i) ∙ e
marked_on bitmap i count e h (suc j) q = ap (test_bit bitmap) (add_suc i j) ∙ h j (omega arith)

marked_round :
    (bitmap : List ℕ) (i rounds offset : ℕ)
    → test_bit bitmap i ≡ true
    → UnmarkedFrom bitmap (i + 1) rounds offset
    → UnmarkedFrom bitmap i (suc rounds) offset
unfolding UnmarkedFrom
marked_round bitmap i rounds offset e (inl (k, h, f, o, b)) = inl (
  suc k,
  omega (arith, h),
  ap (test_bit bitmap) (add_suc i k) ∙ f,
  omega (arith, o),
  λ j q. marked_on bitmap i k e b j q,
)
marked_round bitmap i rounds offset e (inr (o, b)) =
    inr (o, λ j q. marked_on bitmap i rounds e b j q)

unmarked_round :
    (bitmap : List ℕ) (i rounds : ℕ)
    → test_bit bitmap i ≡ false
    → UnmarkedFrom bitmap i (suc rounds) (i * 64)
unfolding UnmarkedFrom
unmarked_round bitmap i rounds e = inl (
  0,
  omega arith,
  ap (test_bit bitmap) (add_zero i) ∙ e,
  omega arith,
  λ j q. absurd (omega arith),
)

first_missing-UnmarkedFrom :
    (bitmap : List ℕ) (i rounds : ℕ) → UnmarkedFrom bitmap i rounds (first_missing bitmap i rounds)
unfolding first_missing
first_missing-UnmarkedFrom bitmap i zero =
    unfold UnmarkedFrom in inr (refl, λ j q. absurd (omega arith))
first_missing-UnmarkedFrom bitmap i (suc rounds) =
    let later = first_missing bitmap (i + 1) rounds in
    let P : Bool → Type 0 = λ t. UnmarkedFrom bitmap i (suc rounds) (if t then later else i * 64) in
    elim (Bool-cases (test_bit bitmap i)) [
      | inl e ↦
          subst P (sym e) (
            marked_round bitmap i rounds later e (first_missing-UnmarkedFrom bitmap (i + 1) rounds))
      | inr e ↦ subst P (sym e) (unmarked_round bitmap i rounds e)
    ]

two_bytes :
    (bm : List ℕ) (k : ℕ) → k < 2 → get_or (get_or bm 0 0 ∷ get_or bm 1 0 ∷ []) k 0 ≡ get_or bm k 0
two_bytes bm zero h = refl
two_bytes bm (suc zero) h = refl
two_bytes bm (suc (suc k)) h = absurd (omega arith)

test_bit-two_bytes :
    (bm : List ℕ) (b : ℕ) → b < 16 → test_bit bm b ≡ test_bit (get_or bm 0 0 ∷ get_or bm 1 0 ∷ []) b
unfolding test_bit
test_bit-two_bytes bm b h =
    ap (λ v. not (bit_and v (2 ^ (b % 8)) == 0)) (sym (two_bytes bm (b / 8) (omega arith)))

same_bits :
    (a b : List ℕ) (offset : ℕ)
    → ((j : ℕ) → j < 16 → test_bit b j ≡ test_bit a j)
    → UnmarkedFrom a 0 16 offset
    → IsFirstUnmarked b offset
unfolding UnmarkedFrom IsFirstUnmarked
same_bits a b offset h (inl (k, q, f, o, m)) = inl (
  k,
  q,
  h k q ∙ ap (test_bit a) (sym (zero_add k)) ∙ f,
  omega (arith, o),
  λ j r. h j (omega (arith, r, q)) ∙ ap (test_bit a) (sym (zero_add j)) ∙ m j r,
)
same_bits a b offset h (inr (o, m)) =
    inr (o, λ j r. h j r ∙ ap (test_bit a) (sym (zero_add j)) ∙ m j r)

first_missing-IsFirstUnmarked :
    (bm : List ℕ) → IsFirstUnmarked bm (first_missing (get_or bm 0 0 ∷ get_or bm 1 0 ∷ []) 0 16)
first_missing-IsFirstUnmarked bm =
    same_bits (get_or bm 0 0 ∷ get_or bm 1 0 ∷ []) bm _ (λ j h. test_bit-two_bytes bm j h)
      (first_missing-UnmarkedFrom (get_or bm 0 0 ∷ get_or bm 1 0 ∷ []) 0 16)

module _ (strtoll : ℕ → ℕ → ℕ) (really_first : Bool) (bid_prefix manifest_bitmap : List ℕ)
    (body_offset : ℕ) (sid_prefix : List ℕ) (h : body_offset < 2 ^ 31) where
  -- The report that is not redirected at random.
  abbrev report : List ℕ
  report = ack_message strtoll really_first false bid_prefix manifest_bitmap body_offset sid_prefix

  report-offset : body_offset_of report ≡ body_offset
  unfolding body_offset_of ack_message bid_bytes le_bytes
  report-offset =
      let value : le_value (le_bytes 4 body_offset) ≡ body_offset =
        le_value-le_bytes 4 body_offset (omega arith) in
      ap (λ v. if ltb v (2 ^ 31) then v else 0) value
      ∙ ap (λ t. if t then body_offset else 0) (lt→ltb body_offset (2 ^ 31) h)

  report-manifest :
      first_missing (drop 9 report) 0 16
      ≡ first_missing (get_or manifest_bitmap 0 0 ∷ get_or manifest_bitmap 1 0 ∷ []) 0 16
  unfolding first_missing ack_message bid_bytes le_bytes test_bit
  report-manifest = refl

  report-bid : take 8 (drop 1 report) ≡ bid_bytes strtoll bid_prefix 0 8
  unfolding ack_message bid_bytes le_bytes
  report-bid = refl

  report-jumps : (c : AckContext) → jumps c report ≡ false
  unfolding jumps ack_message ack_type
  report-jumps c = not_random really_first (c.jump % 2 == 1)

  -- What `resume` makes of the report.
  resumed :
      (c : AckContext) (s : AckState)
      → ((resume c report s).send.tx_bundle_body_offset ≡ body_offset)
        × ((resume c report s).body_hard_lower_bound
            ≡ (if c.no_hard_lower then s.body_hard_lower_bound else body_offset))
        × ((resume c report s).send.tx_bundle_manifest_offset
            ≡ first_missing (get_or manifest_bitmap 0 0 ∷ get_or manifest_bitmap 1 0 ∷ []) 0 16)
  unfolding resume resumed_at
  resumed c s =
      let m = first_missing (drop 9 report) 0 16 in
      let o = body_offset_of report in
      (
        ap (λ t. (resumed_at c t m o).1) (report-jumps c) ∙ report-offset,
        ap (λ o. if c.no_hard_lower then s.body_hard_lower_bound else o) report-offset,
        ap (λ t. (resumed_at c t m o).0) (report-jumps c) ∙ report-manifest,
      )

-- A report that is not redirected at random and is addressed to the node, on the bundle that is
-- being sent to the peer, from an offset below 2^31: the node goes on from that offset of the body,
-- and takes it for the hard lower bound of the body where these are in use, and keeps that bound
-- where they are not. It goes on with the first of the 16 blocks of the manifest that the two bytes
-- of the receiver's bitmap do not mark, or at 1024 where they mark all.
pub sync_parse_ack-ack_message :
    (strtoll : ℕ → ℕ → ℕ) (really_first : Bool) (bid_prefix manifest_bitmap : List ℕ)
    (body_offset : ℕ) (c : AckContext) (s : AckState) (bundle : ℕ)
    → body_offset < 2 ^ 31
    → c.lookup_bundle (bid_bytes strtoll bid_prefix 0 8) ≡ some bundle
    → s.send.tx_bundle ≡ some bundle
    → (s' : AckState) × (sync_parse_ack c
          (ack_message strtoll really_first false bid_prefix manifest_bitmap body_offset c.my_sid)
          s
        ≡ (s', some 0))
      × (s'.send.tx_bundle_body_offset ≡ body_offset)
      × (s'.body_hard_lower_bound
          ≡ (if c.no_hard_lower then s.body_hard_lower_bound else body_offset))
      × IsFirstUnmarked manifest_bitmap s'.send.tx_bundle_manifest_offset
unfolding sync_parse_ack parse_found resume_if ack_message bid_bytes le_bytes
sync_parse_ack-ack_message strtoll really_first bid_prefix manifest_bitmap body_offset c s bundle h
      found sending =
    let msg = report strtoll really_first bid_prefix manifest_bitmap body_offset c.my_sid h in
    let noted : AckState = record s {
      send = note_if (same_bundle (some bundle) s.send.request_bitmap_bundle) msg s.send;
    } in
    let (offset, bound, manifest) =
      resumed strtoll really_first bid_prefix manifest_bitmap body_offset c.my_sid h c noted in
    (
      resume c msg noted,
      ap
            (λ t.
              if t
              then parse_found c msg s (c.lookup_bundle (bid_bytes strtoll bid_prefix 0 8))
              else (s, some 0))
            (both_same (get_or c.my_sid 0 0) (get_or c.my_sid 1 0))
          ∙ ap (parse_found c msg s) found
          ∙ ap (λ t. (resume_if t c msg noted, some 0))
              (ap (same_bundle (some bundle)) sending ∙ same_bundle_refl bundle),
      offset,
      bound,
      subst (IsFirstUnmarked manifest_bitmap) (sym manifest)
          (first_missing-IsFirstUnmarked manifest_bitmap),
    )
