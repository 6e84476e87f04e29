-- ===== src/Messages/Ack/Kept.antt =====
-- src/messages/ack.c: what `sync_parse_ack` leaves of the bitmap of a peer.
use lbard.Prelude.{
  ℕ, List, ◌≡◌, ◌≢◌, refl, sym, ◌∙◌, Option, none, some, Bool, true, false, ◌==◌, ◌&&◌,
  if◌then◌else◌, get_or, set, get_or-set_ne, arith, take, drop,
}
use lbard.Xfer.Send.{SendState, same_bundle}
use lbard.Messages.Ack.{
  AckState, AckContext, note_bitmap, note_if, resume, resume_if, parse_found, sync_parse_ack,
}

-- The same offset of the bitmap, and the same bytes but for the first of the manifest.
pub record KeepsBitmap (p p' : SendState) : Type 0 where
  pub same_offset : p'.request_bitmap_offset ≡ p.request_bitmap_offset
  pub same_bytes : (k : ℕ) → k ≢ 32 → get_or p'.bitmaps k 0 ≡ get_or p.bitmaps k 0

both_types : (t : ℕ) → (t == 0x46 && t == 0x66) ≡ false
both_types t = ground arith

kept_if :
    (t : Bool) (p a b : SendState)
    → t ≡ false
    → KeepsBitmap p b
    → KeepsBitmap p (if t then a else b)
kept_if true p a b e h = absurd (ground arith)
kept_if false p a b e h = h

note_bitmap-KeepsBitmap : (msg : List ℕ) (p : SendState) → KeepsBitmap p (note_bitmap msg p)
unfolding note_bitmap
note_bitmap-KeepsBitmap msg p =
    kept_if (get_or msg 0 0 == 0x46 && get_or msg 0 0 == 0x66) p _ _ (both_types (get_or msg 0 0))
      (record {
        same_offset = refl;
        same_bytes = λ k ne.
            get_or-set_ne (set p.bitmaps 32 (get_or msg 9 0)) 32 k (get_or msg 10 0) 0
              (λ e. ne (sym e))
            ∙ get_or-set_ne p.bitmaps 32 k (get_or msg 9 0) 0 (λ e. ne (sym e));
      })

self_kept : (p : SendState) → KeepsBitmap p p
self_kept p = record { same_offset = refl; same_bytes = λ k ne. refl }

note_if-KeepsBitmap : (t : Bool) (msg : List ℕ) (p : SendState) → KeepsBitmap p (note_if t msg p)
unfolding note_if
note_if-KeepsBitmap true msg p = note_bitmap-KeepsBitmap msg p
note_if-KeepsBitmap false msg p = self_kept p

resume_if-KeepsBitmap :
    (t : Bool) (c : AckContext) (msg : List ℕ) (p : SendState) (s : AckState)
    → KeepsBitmap p s.send
    → KeepsBitmap p (resume_if t c msg s).send
unfolding resume_if resume
resume_if-KeepsBitmap true c msg p s h = record {
  same_offset = h.same_offset;
  same_bytes = h.same_bytes;
}
resume_if-KeepsBitmap false c msg p s h = h

parse_found-KeepsBitmap :
    (c : AckContext) (msg : List ℕ) (s : AckState) (found : Option ℕ)
    → KeepsBitmap s.send (parse_found c msg s found).0.send
unfolding parse_found
parse_found-KeepsBitmap c msg s none = self_kept s.send
parse_found-KeepsBitmap c msg s (some bundle) =
    resume_if-KeepsBitmap (same_bundle (some bundle) s.send.tx_bundle) c msg s.send
      (record s {
        send = note_if (same_bundle (some bundle) s.send.request_bitmap_bundle) msg s.send;
      })
      (note_if-KeepsBitmap (same_bundle (some bundle) s.send.request_bitmap_bundle) msg s.send)

-- No report, of whatever type, moves the bitmap of a peer to another offset, and none changes a
-- byte of it but the first one of the manifest's.
pub sync_parse_ack-KeepsBitmap :
    (c : AckContext) (msg : List ℕ) (s : AckState)
    → KeepsBitmap s.send (sync_parse_ack c msg s).0.send
unfolding sync_parse_ack
sync_parse_ack-KeepsBitmap c msg s =
    either (get_or msg 15 0 == get_or c.my_sid 0 0 && get_or msg 16 0 == get_or c.my_sid 1 0)
      (parse_found c msg s (c.lookup_bundle (take 8 (drop 1 msg)))) (s, some 0)
      (parse_found-KeepsBitmap c msg s (c.lookup_bundle (take 8 (drop 1 msg)))) (self_kept s.send)
  where
    either :
        (t : Bool) (a b : AckState × Option ℕ)
        → KeepsBitmap s.send a.0.send
        → KeepsBitmap s.send b.0.send
        → KeepsBitmap s.send (if t then a else b).0.send
    either true a b h k = h
    either false a b h k = k
