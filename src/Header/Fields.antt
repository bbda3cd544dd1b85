-- ===== src/Header/Fields.antt =====
-- The seven fields of a header: each writer of lib/pyroduct/src/format/header.rs against the readers.
use pyroduct.Base.{ℕ, ◌≡◌, refl, true, false, not, ◌||◌, ◌&&◌}
use pyroduct.Base.{List, [], ◌∷◌, length, All, arith}
use pyroduct.Base.Bytes.{IsByte, IsU32, to_le-of_le_four}
use pyroduct.Base.Outcome.{err}
use pyroduct.Header.{
  Header, header_size, header_len, client_id, wire_format, status_u8, class_id, fn_id, mux_id,
  set_len, set_client_id, set_wire_format, set_status_u8, set_class_id, set_fn_id, set_mux_id,
  status, is_ok, is_user_err, is_pyro_err,
}
use pyroduct.Header.Status

-- What a header says, field by field.
pub record Fields : Type 0 where
  pub len : ℕ
  pub client : ℕ
  pub wire : ℕ
  pub status_byte : ℕ
  pub class : ℕ
  pub fn : ℕ
  pub mux : ℕ

abbrev pub view : Header → Fields
view h = record {
  len = header_len h;
  client = client_id h;
  wire = wire_format h;
  status_byte = status_u8 h;
  class = class_id h;
  fn = fn_id h;
  mux = mux_id h;
}

-- The ranges of the Rust types.
pub record IsInRange (f : Fields) : Type 0 where
  pub len : IsU32 f.len
  pub client : IsU32 f.client
  pub wire : IsByte f.wire
  pub status_byte : IsByte f.status_byte
  pub class : IsByte f.class
  pub fn : IsByte f.fn
  pub mux : IsU32 f.mux

-- All seven writers, one after the other.
abbrev pub write : Header → Fields → Header
write h f =
    set_mux_id
      (set_fn_id
        (set_class_id
          (set_status_u8 (set_wire_format (set_client_id (set_len h f.len) f.client) f.wire)
            f.status_byte)
          f.class)
        f.fn)
      f.mux

-- A list of sixteen, by its elements.
data Sixteen : List ℕ → Type 0 where
  sixteen :
      (a b c d e f g h i j k l m n o p : ℕ)
      → Sixteen (a ∷ b ∷ c ∷ d ∷ e ∷ f ∷ g ∷ h ∷ i ∷ j ∷ k ∷ l ∷ m ∷ n ∷ o ∷ p ∷ [])

Sixteen-of_list : (h : List ℕ) → length h ≡ 16 → Sixteen h
Sixteen-of_list (a ∷ b ∷ c ∷ d ∷ e ∷ f ∷ g ∷ h ∷ i ∷ j ∷ k ∷ l ∷ m ∷ n ∷ o ∷ p ∷ []) z =
    sixteen a b c d e f g h i j k l m n o p
Sixteen-of_list _ z = absurd (omega arith)

set_len-view :
    {h : Header} → Sixteen h → (v : ℕ) → IsU32 v → view (set_len h v) ≡ record (view h) { len = v }
unfolding header_len client_id wire_format status_u8 class_id fn_id mux_id set_len
set_len-view (sixteen a b c d e f g h i j k l m n o p) v r = ground arith

set_client_id-view :
    {h : Header}
    → Sixteen h
    → (v : ℕ) → IsU32 v
    → view (set_client_id h v) ≡ record (view h) { client = v }
unfolding header_len client_id wire_format status_u8 class_id fn_id mux_id set_client_id
set_client_id-view (sixteen a b c d e f g h i j k l m n o p) v r = ground arith

set_mux_id-view :
    {h : Header}
    → Sixteen h
    → (v : ℕ) → IsU32 v
    → view (set_mux_id h v) ≡ record (view h) { mux = v }
unfolding header_len client_id wire_format status_u8 class_id fn_id mux_id set_mux_id
set_mux_id-view (sixteen a b c d e f g h i j k l m n o p) v r = ground arith

set_wire_format-view :
    {h : Header} → Sixteen h → (v : ℕ) → view (set_wire_format h v) ≡ record (view h) { wire = v }
unfolding header_len client_id wire_format status_u8 class_id fn_id mux_id set_wire_format
set_wire_format-view (sixteen a b c d e f g h i j k l m n o p) v = refl

set_status_u8-view :
    {h : Header}
    → Sixteen h
    → (v : ℕ) → view (set_status_u8 h v) ≡ record (view h) { status_byte = v }
unfolding header_len client_id wire_format status_u8 class_id fn_id mux_id set_status_u8
set_status_u8-view (sixteen a b c d e f g h i j k l m n o p) v = refl

set_class_id-view :
    {h : Header} → Sixteen h → (v : ℕ) → view (set_class_id h v) ≡ record (view h) { class = v }
unfolding header_len client_id wire_format status_u8 class_id fn_id mux_id set_class_id
set_class_id-view (sixteen a b c d e f g h i j k l m n o p) v = refl

set_fn_id-view :
    {h : Header} → Sixteen h → (v : ℕ) → view (set_fn_id h v) ≡ record (view h) { fn = v }
unfolding header_len client_id wire_format status_u8 class_id fn_id mux_id set_fn_id
set_fn_id-view (sixteen a b c d e f g h i j k l m n o p) v = refl

-- On a header of 16 bytes, each writer sets its own field to the value given, and leaves the other
-- six as they were. The values are in the range of the field's Rust type.
pub writers_refine :
    (h : Header) (f : Fields)
    → length h ≡ header_size
    → IsInRange f
    → (view (set_len h f.len) ≡ record (view h) { len = f.len })
      × (view (set_client_id h f.client) ≡ record (view h) { client = f.client })
      × (view (set_wire_format h f.wire) ≡ record (view h) { wire = f.wire })
      × (view (set_status_u8 h f.status_byte) ≡ record (view h) { status_byte = f.status_byte })
      × (view (set_class_id h f.class) ≡ record (view h) { class = f.class })
      × (view (set_fn_id h f.fn) ≡ record (view h) { fn = f.fn })
      × (view (set_mux_id h f.mux) ≡ record (view h) { mux = f.mux })
writers_refine h f z r =
    let s = Sixteen-of_list h z in
    (
      set_len-view s f.len r.len,
      set_client_id-view s f.client r.client,
      set_wire_format-view s f.wire,
      set_status_u8-view s f.status_byte,
      set_class_id-view s f.class,
      set_fn_id-view s f.fn,
      set_mux_id-view s f.mux r.mux,
    )

view-write-Sixteen : {h : Header} → Sixteen h → (f : Fields) → IsInRange f → view (write h f) ≡ f
unfolding header_len client_id wire_format status_u8 class_id fn_id mux_id set_len set_client_id
    set_wire_format set_status_u8 set_class_id set_fn_id set_mux_id
view-write-Sixteen (sixteen a b c d e f g h i j k l m n o p) x r = ground arith

-- The writer of the length, as the buffers use it.
length-set_len-Sixteen : {h : Header} → Sixteen h → (v : ℕ) → length (set_len h v) ≡ header_size
unfolding set_len
length-set_len-Sixteen (sixteen a b c d e f g h i j k l m n o p) v = refl

module _ (h : Header) (v : ℕ) (whole : length h ≡ header_size) where
  pub length-set_len : length (set_len h v) ≡ header_size
  length-set_len = length-set_len-Sixteen (Sixteen-of_list h whole) v

  pub view-set_len : IsU32 v → view (set_len h v) ≡ record (view h) { len = v }
  view-set_len = set_len-view (Sixteen-of_list h whole) v

-- Writing the seven fields into any header of 16 bytes and reading them back gives the fields.
pub view-write :
    (h : Header) (f : Fields) → length h ≡ header_size → IsInRange f → view (write h f) ≡ f
view-write h f z r = view-write-Sixteen (Sixteen-of_list h z) f r

write-view-Sixteen : {h g : Header} → Sixteen g → Sixteen h → All IsByte h → write g (view h) ≡ h
unfolding header_len client_id wire_format status_u8 class_id fn_id mux_id set_len set_client_id
    set_wire_format set_status_u8 set_class_id set_fn_id set_mux_id
write-view-Sixteen (sixteen a' b' c' d' e' f' g' h' i' j' k' l' m' n' o' p')
      (sixteen a b c d e f g h i j k l m n o p) r =
    ground (arith, to_le-of_le_four a b c d, to_le-of_le_four e f g h, to_le-of_le_four m n o p)

-- The fields are all that a header of 16 bytes holds: written over any other they give it back whole.
pub write-view :
    (g h : Header)
    → length g ≡ header_size
    → length h ≡ header_size
    → All IsByte h
    → write g (view h) ≡ h
write-view g h y z r = write-view-Sixteen (Sixteen-of_list g y) (Sixteen-of_list h z) r

-- The five writers that a clone calls, from one header to another.
abbrev pub copy_fields : Header → Header → Header
copy_fields g h =
    set_mux_id
      (set_class_id
        (set_fn_id (set_wire_format (set_status_u8 g (status_u8 h)) (wire_format h)) (fn_id h))
        (class_id h))
      (mux_id h)

view-copy_fields-Sixteen :
    {g h : Header}
    → Sixteen g
    → Sixteen h
    → All IsByte h
    → view (copy_fields g h) ≡ record (view h) { len = header_len g; client = client_id g }
unfolding header_len client_id wire_format status_u8 class_id fn_id mux_id set_class_id set_fn_id
    set_mux_id set_status_u8 set_wire_format
view-copy_fields-Sixteen (sixteen a' b' c' d' e' f' g' h' i' j' k' l' m' n' o' p')
      (sixteen a b c d e f g h i j k l m n o p) r =
    ground arith

pub view-copy_fields :
    (g h : Header)
    → length g ≡ header_size
    → length h ≡ header_size
    → All IsByte h
    → view (copy_fields g h) ≡ record (view h) { len = header_len g; client = client_id g }
view-copy_fields g h y z r = view-copy_fields-Sixteen (Sixteen-of_list g y) (Sixteen-of_list h z) r

view-IsInRange-Sixteen : {h : Header} → Sixteen h → All IsByte h → IsInRange (view h)
unfolding header_len client_id wire_format status_u8 class_id fn_id mux_id
view-IsInRange-Sixteen (sixteen a b c d e f g h i j k l m n o p) r = omega arith

pub view-IsInRange : (h : Header) → length h ≡ header_size → All IsByte h → IsInRange (view h)
view-IsInRange h z r = view-IsInRange-Sixteen (Sixteen-of_list h z) r

-- Whatever the status byte, a header is exactly one of success, user error and pyro error, and a byte
-- that is no status is a pyro error.
pub header_classes :
    (h : Header)
    → (is_pyro_err h ≡ not (is_ok h || is_user_err h))
      × ((is_ok h && is_user_err h) ≡ false)
      × ((b : ℕ) → status h ≡ err b → is_pyro_err h ≡ true)
unfolding is_pyro_err is_ok is_user_err Status.is_pyro_err Status.is_ok Status.is_user_err
header_classes h = ground arith
