-- ===== src/LogWal/Frames.antt =====
-- What a segment file and its index file hold: a frame for each payload, and the frames' offsets.
use native.Mathlib.Nat.{add-zero, zero-add}
use pyroduct.Base.{ℕ, zero, suc, ◌+◌, ◌*◌, ◌<◌, ◌≡◌, refl, sym, ap, ◌∙◌, arith}
use pyroduct.Base.{none, some, List, [], ◌∷◌, ◌++◌, append_assoc, append-nil}
use pyroduct.Base.{length, get_elem?, le→leb, lt→leb_false}
use pyroduct.Base.{length-append, take-append, drop-append}
use pyroduct.Base.Bytes.{to_le}
use pyroduct.LogWal.Files.{Bytes, read_exact}
use pyroduct.LogWal.Writer.{frame}

unfoldable pub frames : List Bytes → Bytes
frames [] = []
frames (p ∷ ps) = frame p ++ frames ps

-- The index of frames that begin at an offset.
unfoldable pub offsets : ℕ → List Bytes → Bytes
offsets off [] = []
offsets off (p ∷ ps) = to_le 8 off ++ offsets (off + length (frame p)) ps

pub length-frame : (p : Bytes) → length (frame p) ≡ 8 + length p
unfolding frame
length-frame p = omega arith

pub frames-append : (ps qs : List Bytes) → frames (ps ++ qs) ≡ frames ps ++ frames qs
unfolding frames
frames-append [] qs = refl
frames-append (p ∷ ps) qs =
    rw (frames-append ps qs) (sym (append_assoc (frame p) (frames ps) (frames qs)))

pub frames-snoc : (ps : List Bytes) (p : Bytes) → frames (ps ++ p ∷ []) ≡ frames ps ++ frame p
frames-snoc ps p =
    frames-append ps (p ∷ []) ∙ ap (λ t. frames ps ++ t) (unfold frames in append-nil (frame p))

pub offsets-append :
    (off : ℕ) (ps qs : List Bytes)
    → offsets off (ps ++ qs) ≡ offsets off ps ++ offsets (off + length (frames ps)) qs
unfolding offsets frames
offsets-append off [] qs = rw add-zero refl
offsets-append off (p ∷ ps) qs =
    let e : off + length (frame p ++ frames ps) ≡ off + length (frame p) + length (frames ps) =
      omega (arith, length-append (frame p) (frames ps)) in
    rw (e, offsets-append (off + length (frame p)) ps qs) refl

pub length-offsets : (off : ℕ) (ps : List Bytes) → length (offsets off ps) ≡ length ps * 8
unfolding offsets
length-offsets off [] = refl
length-offsets off (p ∷ ps) = omega (arith, length-offsets (off + length (frame p)) ps)

-- `read_exact` of a part that is known, wherever it stands.
pub read_exact-append :
    (front part back : Bytes) (off n : ℕ)
    → off ≡ length front
    → n ≡ length part
    → read_exact (front ++ (part ++ back)) off n ≡ some part
unfolding read_exact
read_exact-append front part back off n e d =
    rw
      (
        le→leb (off + n) (length (front ++ (part ++ back)))
            (omega (arith, length-append front (part ++ back), length-append part back)),
        drop-append front (part ++ back) off e,
        take-append part back n d,
      )
      refl

pub read_exact_short :
    (bytes : Bytes) (off n : ℕ) → length bytes < off + n → read_exact bytes off n ≡ none
unfolding read_exact
read_exact_short bytes off n h = rw (lt→leb_false (off + n) (length bytes) h) refl

-- An element of a list, with what stands before and behind it.
pub split_at :
    (ps : List Bytes) (j : ℕ) (p : Bytes)
    → get_elem? ps j ≡ some p
    → (before : List Bytes) × (after : List Bytes) × (ps ≡ before ++ p ∷ after)
      × (length before ≡ j)
split_at [] j p e = cc
split_at (q ∷ ps) zero p e = ([], ps, ground arith, refl)
split_at (q ∷ ps) (suc j) p e =
    let (before, after, d, l) = split_at ps j p e in
    (q ∷ before, after, ap (λ t. q ∷ t) d, ap suc l)

pub offsets-split :
    (before after : List Bytes) (p : Bytes)
    → offsets 0 (before ++ p ∷ after)
      ≡ offsets 0 before
        ++ (to_le 8 (length (frames before))
            ++ offsets (length (frames before) + length (frame p)) after)
offsets-split before after p = rw offsets-append (rw zero-add (unfold offsets in refl))
